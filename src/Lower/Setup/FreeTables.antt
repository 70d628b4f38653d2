-- ===== src/Lower/Setup/FreeTables.antt =====
-- The counters that `free_all` of core/src/lower.rs writes.
use native.Mathlib.Decide.{dec_lt}
use llfree_rs.Base.{
  ℕ, zero, suc, ◌+◌, ◌-◌, ◌*◌, ◌/◌, ◌%◌, ◌≤◌, ◌<◌, ◌≡◌, refl, ap, ◌∙◌, min, List, [], ◌∷◌, map,
  length, length-map, get_or, returns, bind-returns, arith,
}
use llfree_rs.Lower.Entry.{HugeEntry, new, new_free}
use llfree_rs.Lower.Types.{Table}
use llfree_rs.Lower.Setup.{free_entries, free_tables}

-- The entry of the huge frame `h` of `frames` free frames.
abbrev pub free_entry : ℕ → ℕ → HugeEntry
free_entry frames h = new_free (min (frames - h * 512) 512)

length-free_entries :
    (frames start : ℕ) (es : Table) → length (free_entries frames start es) ≡ length es
unfolding free_entries
length-free_entries frames start [] = refl
length-free_entries frames start (e ∷ es) = ap suc (length-free_entries frames (start + 512) es)

get_or-free_entries :
    (frames h : ℕ) (es : Table) (i : ℕ)
    → i < length es
    → get_or (free_entries frames (h * 512) es) i new ≡ free_entry frames (h + i)
unfolding free_entries
get_or-free_entries frames h [] i lt = absurd (omega arith)
get_or-free_entries frames h (e ∷ es) zero lt = ap (free_entry frames) (omega arith)
get_or-free_entries frames h (e ∷ es) (suc i) lt =
    let next : h * 512 + 512 ≡ (h + 1) * 512 = omega arith in
    let at : h + suc i ≡ h + 1 + i = omega arith in
    rw (next, at) (get_or-free_entries frames (h + 1) es i (omega arith))

pub get_or-map_const :
    {A B : Type 0} (c : B) (xs : List A) (i : ℕ) (d : B)
    → i < length xs
    → get_or (map (λ _. c) xs) i d ≡ c
get_or-map_const c [] i d lt = absurd (omega arith)
get_or-map_const c (x ∷ xs) zero d lt = refl
get_or-map_const c (x ∷ xs) (suc i) d lt = get_or-map_const c xs i d (omega arith)

-- The tables from the `n`-th on.
pub record TablesFree (n frames : ℕ) (ts ts' : List Table) : Type 0 where
  pub same_count : length ts' ≡ length ts
  pub sizes : (t : ℕ) → t < length ts → length (get_or ts' t []) ≡ 8
  pub entries :
      (h : ℕ)
      → h < length ts * 8
      → get_or (get_or ts' (h / 8) []) (h % 8) new ≡ free_entry frames (n * 8 + h)

pub free_tables-Free :
    (n frames : ℕ) (ts : List Table)
    → 0 < length ts
    → (n + length ts - 1) * 4096 ≤ frames
    → ((t : ℕ) → t < length ts → length (get_or ts t []) ≡ 8)
    → (ts' : List Table) × (free_tables n frames ts ≡ returns ts') × TablesFree n frames ts ts'
unfolding free_tables
free_tables-Free n frames [] pos full sizes = absurd (omega arith)
free_tables-Free n frames (t ∷ []) pos full sizes = (
  free_entries frames (n * 4096) t ∷ [],
  refl,
  record { same_count = refl; sizes = λ k lt. size k lt; entries = λ h lt. entry h lt },
)
  where
    last : Table
    last = free_entries frames (n * 4096) t

    size : (k : ℕ) → k < 1 → length (get_or (last ∷ []) k []) ≡ 8
    size zero lt = length-free_entries frames (n * 4096) t ∙ sizes 0 lt
    size (suc k) lt = absurd (omega arith)

    entry :
        (h : ℕ)
        → h < 8
        → get_or (get_or (last ∷ []) (h / 8) []) (h % 8) new ≡ free_entry frames (n * 8 + h)
    entry h lt =
        let d : h / 8 ≡ 0 = omega arith in
        let m : h % 8 ≡ h = omega arith in
        let at : n * 4096 ≡ n * 8 * 512 = omega arith in
        rw (d, m, at)
          (get_or-free_entries frames (n * 8) t h (omega (arith, sizes 0 (omega arith))))
free_tables-Free n frames (t ∷ t' ∷ ts) pos full sizes =
    let (rest, r, f) =
      free_tables-Free (n + 1) frames (t' ∷ ts) (omega arith) (omega arith)
        (λ k lt. sizes (suc k) (omega arith)) in
    (
      map (λ _. new_free 512) t ∷ rest,
      bind-returns _ r,
      record {
        same_count = ap suc f.same_count;
        sizes = λ k lt. size rest f k lt;
        entries = λ h lt. entry rest f h lt (dec_lt h 8);
      },
    )
  where
    head : Table
    head = map (λ _. new_free 512) t

    size :
        (rest : List Table)
        → TablesFree (n + 1) frames (t' ∷ ts) rest
        → (k : ℕ) → k < suc (suc (length ts))
        → length (get_or (head ∷ rest) k []) ≡ 8
    size rest f zero lt = length-map t (λ _. new_free 512) ∙ sizes 0 (omega arith)
    size rest f (suc k) lt = f.sizes k (omega arith)

    entry :
        (rest : List Table)
        → TablesFree (n + 1) frames (t' ∷ ts) rest
        → (h : ℕ) → h < suc (suc (length ts)) * 8
        → Dec (h < 8)
        → get_or (get_or (head ∷ rest) (h / 8) []) (h % 8) new ≡ free_entry frames (n * 8 + h)
    entry rest f h lt (yes near) =
        let d : h / 8 ≡ 0 = omega arith in
        let m : h % 8 ≡ h = omega arith in
        let whole : min (frames - (n * 8 + h) * 512) 512 ≡ 512 = omega arith in
        rw (d, m, whole)
          (get_or-map_const (new_free 512) t h new (omega (arith, sizes 0 (omega arith))))
    entry rest f h lt (no far) =
        let k = h - 8 in
        let d : h / 8 ≡ suc (k / 8) = omega arith in
        let m : h % 8 ≡ k % 8 = omega arith in
        let at : n * 8 + h ≡ (n + 1) * 8 + k = omega arith in
        rw (d, m, at) (f.entries k (omega arith))
