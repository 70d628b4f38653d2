-- ===== src/Bitfield/Search.antt =====
-- The search of core/src/bitfield.rs for zero bits within the entries, orders 0 to 6.
pub mod Entries
use mathlib.Core.Path.{subst₂, ap₂}
use mathlib.Core.Logic.{◌≢◌}
use native.Mathlib.Nat.{
  mul-mod_left, mul-mod_right, zero-mul, div-one, mul-le-mul_right, mod-lt, mod-eq_of_lt,
  mod-add-div, one-le-pow, add-mod_right, div-div-eq-div-mul,
}
use native.Mathlib.Decide.{dec_lt}
use llfree_rs.Base.{
  index-get_or, ℕ, zero, suc, ◌+◌, ◌-◌, ◌*◌, ◌/◌, ◌%◌, ◌^◌, ◌≤◌, ◌<◌, ◌≡◌, refl, ap, sym, ◌∙◌, ◌⊎◌,
  inl, inr, true, [], ◌∷◌, length, get_or, set, Option, none, some, Run, returns, index, ok, err,
  arith, Option-cases, bit_or,
}
use llfree_rs.Types.{Res, memory}
use llfree_rs.Word.{shl}
use llfree_rs.Word.Bits.{bit_or_step}
use llfree_rs.Word.Split.{two-pow-add, two-pow-suc, two-pow-suc-mul}
use llfree_rs.Word.Digits.{
  first_zero_digit, fill_digit, IsZeroDigit, first_zero_digit-IsZeroDigit, bit_or-fill_digit,
}
use llfree_rs.Word.Bit.{bit, block, around-Flips, bit-split_high}
use llfree_rs.Word
use llfree_rs.Bitfield.{Bitfield, len, search_entries, set_first_zeros}
use llfree_rs.Bitfield.FirstZeros.Reference.{first_zeros_aligned-reference, block_fits}
use llfree_rs.Bitfield.Bits.{Flips, IsWords, bit_at, set-Flips, get_or-IsWords}

bit_or-lt : (k a b : ℕ) → a < 2 ^ k → b < 2 ^ k → bit_or a b < 2 ^ k
bit_or-lt zero zero zero p q = omega arith
bit_or-lt zero zero (suc b) p q = absurd (omega arith)
bit_or-lt zero (suc a) b p q = absurd (omega arith)
bit_or-lt (suc k) a b p q = omega (
  arith,
  bit_or_step a b,
  two-pow-suc k,
  bit_or-lt k (a / 2) (b / 2) (omega (arith, two-pow-suc k)) (omega (arith, two-pow-suc k)),
)

fill_digit-lt :
    (n q v : ℕ) → suc q * n ≤ 64 → v < 2 ^ 64 → IsZeroDigit n q v → fill_digit n q v < 2 ^ 64
fill_digit-lt n q v fits h d = omega (
  arith,
  bit_or-fill_digit n q v d,
  block_fits n q fits,
  bit_or-lt 64 v ((2 ^ n - 1) * 2 ^ (q * n)) h (omega (arith, block_fits n q fits)),
)

fill_digit-Flips :
    (n q v : ℕ) → IsZeroDigit n q v → Word.Bit.Flips (q * n) n true v (fill_digit n q v)
unfolding block
fill_digit-Flips n q v d =
    let e : d.low + 2 ^ (q * n) * (0 + 2 ^ n * d.high) ≡ v = omega (arith, d.splits) in
    let f : d.low + 2 ^ (q * n) * (2 ^ n - 1 + 2 ^ n * d.high) ≡ fill_digit n q v =
      omega (arith, d.splits) in
    subst₂ (Word.Bit.Flips (q * n) n true) e f (around-Flips n (q * n) d.low d.high d.low_lt true)

-- No digit is zero where the search finds none.
first_zero_digit-none :
    (n m v q : ℕ) → first_zero_digit n m v ≡ none → q < m → v / 2 ^ (q * n) % 2 ^ n ≢ 0
unfolding first_zero_digit
first_zero_digit-none n zero v q h lt z = absurd (omega arith)
first_zero_digit-none n (suc m) v zero h lt z =
    let e : 2 ^ (0 * n) ≡ 1 = ap (λ (t : ℕ). 2 ^ t) (zero-mul n) in
    let d : v / 2 ^ (0 * n) ≡ v = ap (λ (t : ℕ). v / t) e ∙ div-one v in
    let z' : v % 2 ^ n ≡ 0 = sym (ap (λ (t : ℕ). t % 2 ^ n) d) ∙ z in ground arith
first_zero_digit-none n (suc m) v (suc q) h lt z =
    let e : suc q * n ≡ n + q * n = omega arith in
    let d : v / 2 ^ (suc q * n) ≡ v / 2 ^ n / 2 ^ (q * n) =
      ap (λ (t : ℕ). v / t) (ap (λ (t : ℕ). 2 ^ t) e ∙ two-pow-add n (q * n))
      ∙ sym (div-div-eq-div-mul v (2 ^ n) (2 ^ (q * n))) in
    first_zero_digit-none n m (v / 2 ^ n) q (rest (Option-cases (first_zero_digit n m (v / 2 ^ n))))
      (omega arith) (sym (ap (λ (t : ℕ). t % 2 ^ n) d) ∙ z)
  where
    rest :
        (first_zero_digit n m (v / 2 ^ n) ≡ none)
          ⊎ ((p : ℕ) × (first_zero_digit n m (v / 2 ^ n) ≡ some p))
        → first_zero_digit n m (v / 2 ^ n) ≡ none
    rest (inl f) = f
    rest (inr (p, f)) = absurd (ground arith)

-- Bits that are all zero make a zero number.
zero_bits : (n v : ℕ) → ((j : ℕ) → j < n → bit v j ≡ 0) → v % 2 ^ n ≡ 0
unfolding bit
zero_bits zero v h = omega arith
zero_bits (suc n) v h =
    let half : v / 2 % 2 ^ n ≡ 0 = zero_bits n (v / 2) (λ j lt. h (suc j) (omega arith)) in
    let e : v ≡ 2 ^ suc n * (v / 2 / 2 ^ n) = omega (
      arith,
      half,
      h 0 (omega arith),
      mod-add-div (v / 2) (2 ^ n),
      two-pow-suc-mul n (v / 2 / 2 ^ n),
    ) in
    ap (λ (t : ℕ). t % 2 ^ suc n) e ∙ mul-mod_right (2 ^ suc n) (v / 2 / 2 ^ n)

pub bit-div : (s v j : ℕ) → bit (v / 2 ^ s) j ≡ bit v (s + j)
bit-div s v j =
    let e : v ≡ v % 2 ^ s + 2 ^ s * (v / 2 ^ s) = omega (arith, mod-add-div v (2 ^ s)) in
    sym (
      ap (λ (t : ℕ). bit t (s + j)) e
      ∙ bit-split_high s (v % 2 ^ s) (v / 2 ^ s) j (mod-lt v (one-le-pow s 2 (omega arith))))

-- Some bit is set in every aligned block of 2 ^ order bits.
abbrev pub NoBlock : ℕ → Bitfield → Type 0
NoBlock order d =
    (off : ℕ)
    → off % 2 ^ order ≡ 0
    → off + 2 ^ order ≤ len d
    → ¬ ((j : ℕ) → j < 2 ^ order → bit_at d (off + j) ≡ 0)

-- A block was found at an aligned offset, or there is none.
pub record IsFound (order off : ℕ) (d d' : Bitfield) : Type 0 where
  pub aligned : off % 2 ^ order ≡ 0
  pub within : off + 2 ^ order ≤ len d
  pub flips : Flips off (2 ^ order) true d d'

abbrev pub Found : ℕ → Bitfield → Run (Res ℕ × Bitfield) → Type 0
Found order d out =
    (off : ℕ) × (d' : Bitfield) × (out ≡ returns (ok off, d')) × IsFound order off d d'

-- The blocks of `n` bits in a word.
width : (order : ℕ) → order ≤ 6 → 2 ^ (6 - order) * 2 ^ order ≡ 64
width order h =
    let e : 6 - order + order ≡ 6 = omega arith in
    sym (two-pow-add (6 - order) order) ∙ ap (λ (t : ℕ). 2 ^ t) e

IsFound-in_word :
    (order i q : ℕ) (d : Bitfield)
    → order ≤ 6
    → i < length d
    → IsWords d
    → first_zero_digit (2 ^ order) (2 ^ (6 - order)) (get_or d i 0) ≡ some q
    → IsFound order (i * 64 + q * 2 ^ order) d (set d i (fill_digit (2 ^ order) q (get_or d i 0)))
IsFound-in_word order i q d h lt ws e =
    let n = 2 ^ order in
    let w = get_or d i 0 in
    let z = first_zero_digit-IsZeroDigit n (2 ^ (6 - order)) w q e in
    let fits : suc q * n ≤ 64 = omega (arith, width order h, mul-le-mul_right n z.0) in
    let whole : i * 64 + q * n ≡ (i * 2 ^ (6 - order) + q) * n =
      omega (arith, ap (λ (t : ℕ). i * t) (width order h)) in
    record {
      aligned = ap (λ (t : ℕ). t % n) whole ∙ mul-mod_left (i * 2 ^ (6 - order) + q) n;
      within = omega (arith, mul-le-mul_right 64 lt);
      flips =
          set-Flips d i (q * n) n (fill_digit n q w) true lt (omega arith)
            (fill_digit-lt n q w fits (get_or-IsWords d i ws) z.1) (fill_digit-Flips n q w z.1);
    }

-- The entry of round `k` holds no block.
abbrev Misses : ℕ → ℕ → Bitfield → ℕ → Type 0
Misses start order d k =
    first_zero_digit (2 ^ order) (2 ^ (6 - order)) (get_or d ((k + start) % length d) 0) ≡ none

module _ (n j start order : ℕ) (d : Bitfield) (h : order ≤ 6) (ws : IsWords d)
    (pos : 0 < length d) where
  abbrev entry : ℕ
  entry = (j + start) % length d

  abbrev digit : Option ℕ
  digit = first_zero_digit (2 ^ order) (2 ^ (6 - order)) (get_or d entry 0)

  search_hit :
      (q : ℕ)
      → digit ≡ some q
      → search_entries (suc n) j start order d
        ≡ returns (
          ok (entry * 64 + q * 2 ^ order),
          set d entry (fill_digit (2 ^ order) q (get_or d entry 0)),
        )
  unfolding search_entries
  search_hit q f =
      rw
        (
          index-get_or 0 d entry (mod-lt (j + start) pos),
          first_zeros_aligned-reference order (get_or d entry 0) h (get_or-IsWords d entry ws),
          f,
        )
        refl

  search_miss :
      digit ≡ none → search_entries (suc n) j start order d ≡ search_entries n (j + 1) start order d
  unfolding search_entries
  search_miss f =
      rw
        (
          index-get_or 0 d entry (mod-lt (j + start) pos),
          first_zeros_aligned-reference order (get_or d entry 0) h (get_or-IsWords d entry ws),
          f,
        )
        refl

search_entries-Found :
    (n j start order : ℕ) (d : Bitfield)
    → order ≤ 6
    → IsWords d
    → n + j ≡ length d
    → Found order d (search_entries n j start order d)
      ⊎ ((search_entries n j start order d ≡ returns (err memory, d))
          × ((k : ℕ) → j ≤ k → k < length d → Misses start order d k))
search_entries-Found zero j start order d h ws e =
    inr (unfold search_entries in refl, λ k a b. absurd (omega arith))
search_entries-Found (suc n) j start order d h ws e =
    let pos : 0 < length d = omega arith in
    elim (Option-cases (digit n j start order d h ws pos)) [
      | inr (q, f) ↦ inl (
        (j + start) % length d * 64 + q * 2 ^ order,
        set d ((j + start) % length d)
            (fill_digit (2 ^ order) q (get_or d ((j + start) % length d) 0)),
        search_hit n j start order d h ws pos q f,
        IsFound-in_word order ((j + start) % length d) q d h (mod-lt (j + start) pos) ws f,
      )
      | inl f ↦
          rw (search_miss n j start order d h ws pos f)
            (elim (search_entries-Found n (j + 1) start order d h ws (omega arith)) [
              | inl found ↦ inl found
              | inr (r, misses) ↦ inr (r, λ k a b. later k b (misses k) f (dec_lt j k) a)
            ])
    ]
  where
    later :
        (k : ℕ)
        → k < length d
        → (j + 1 ≤ k → k < length d → Misses start order d k)
        → Misses start order d j
        → Dec (j < k)
        → j ≤ k
        → Misses start order d k
    later k b misses here (yes lt) a = misses (omega arith) b
    later k b misses here (no ge) a = let s : j ≡ k = omega arith in rw (← s) here

-- An aligned offset is that of a block in an entry.
pub block_place :
    (order off : ℕ)
    → order ≤ 6
    → off % 2 ^ order ≡ 0
    → (i : ℕ) × (q : ℕ) × (off ≡ i * 64 + q * 2 ^ order)
      × (q < 2 ^ (6 - order))
      × (q * 2 ^ order + 2 ^ order ≤ 64)
block_place order off h aligned =
    let n = 2 ^ order in
    let m = 2 ^ (6 - order) in
    let t = off / n in
    let whole : off ≡ t * n = omega (arith, aligned, mod-add-div off n) in
    let parts : t ≡ t / m * m + t % m = omega (arith, mod-add-div t m) in
    let q_lt : t % m < m = mod-lt t (one-le-pow (6 - order) 2 (omega arith)) in
    let spread : off ≡ t / m * m * n + t % m * n =
      whole ∙ omega (arith, ap (λ (x : ℕ). x * n) parts) in
    (
      t / m,
      t % m,
      omega (arith, spread, ap (λ (x : ℕ). t / m * x) (width order h)),
      q_lt,
      omega (arith, width order h, mul-le-mul_right n q_lt),
    )

-- Every entry is that of some round.
pub round_of : (start i l : ℕ) → start < l → i < l → (k : ℕ) × (k < l) × ((k + start) % l ≡ i)
round_of start i l h lt = elim (dec_lt i start) [
  | yes before ↦
      let e : i + l - start + start ≡ i + l = omega arith in
      (i + l - start, omega arith, ap (λ (x : ℕ). x % l) e ∙ add-mod_right i l ∙ mod-eq_of_lt lt)
  | no after ↦
      let e : i - start + start ≡ i = omega arith in
      (i - start, omega arith, ap (λ (x : ℕ). x % l) e ∙ mod-eq_of_lt lt)
]

block_in_word :
    (order i q off : ℕ) (d : Bitfield)
    → off ≡ i * 64 + q * 2 ^ order
    → q * 2 ^ order + 2 ^ order ≤ 64
    → ((j : ℕ) → j < 2 ^ order → bit_at d (off + j) ≡ 0)
    → get_or d i 0 / 2 ^ (q * 2 ^ order) % 2 ^ (2 ^ order) ≡ 0
unfolding bit_at
block_in_word order i q off d place fits zeros =
    zero_bits (2 ^ order) (get_or d i 0 / 2 ^ (q * 2 ^ order)) λ j lt.
      let e : (off + j) / 64 ≡ i = omega arith in
      let r : (off + j) % 64 ≡ q * 2 ^ order + j = omega arith in
      let z : bit (get_or d i 0) (q * 2 ^ order + j) ≡ 0 =
        ap₂ (λ (x y : ℕ). bit (get_or d x 0) y) (sym e) (sym r) ∙ zeros j lt in
      bit-div (q * 2 ^ order) (get_or d i 0) j ∙ z

-- A miss in every entry leaves no block anywhere.
Misses-NoBlock :
    (start order : ℕ) (d : Bitfield)
    → order ≤ 6
    → start < length d
    → ((k : ℕ) → 0 ≤ k → k < length d → Misses start order d k)
    → NoBlock order d
Misses-NoBlock start order d h lt misses off aligned within zeros =
    let (i, q, place, q_lt, fits) = block_place order off h aligned in
    let (k, k_lt, e) = round_of start i (length d) lt (omega (arith, one-le-pow order 2)) in
    first_zero_digit-none (2 ^ order) (2 ^ (6 - order)) (get_or d i 0) q
      (ap (λ (x : ℕ). first_zero_digit (2 ^ order) (2 ^ (6 - order)) (get_or d x 0)) (sym e)
        ∙ misses k (omega arith) k_lt)
      q_lt (block_in_word order i q off d place fits zeros)

-- Orders up to 6: a block within one entry.
pub set_first_zeros-Found_small :
    (start order : ℕ) (d : Bitfield)
    → order ≤ 6
    → IsWords d
    → start < length d
    → Found order d (set_first_zeros start order d)
      ⊎ ((set_first_zeros start order d ≡ returns (err memory, d)) × NoBlock order d)
set_first_zeros-Found_small start order d h ws lt =
    rw enters (elim (search_entries-Found (length d) 0 start order d h ws (omega arith)) [
      | inl found ↦ inl found
      | inr (r, misses) ↦ inr (r, Misses-NoBlock start order d h lt misses)
    ])
  where
    enters : set_first_zeros start order d ≡ search_entries (length d) 0 start order d
    enters = unfold set_first_zeros in ground arith
