-- ===== src/Bitfield/Toggle/Entries.antt =====
-- `toggle` of core/src/bitfield.rs on whole entries, orders above 6, with its undo; and all orders.
use native.Mathlib.Nat.{one-le-pow, mod-add-div, div-one, div-eq_of_lt, mod-eq_of_lt}
use native.Mathlib.Decide.{ℕ_discrete, dec_le}
use mathlib.Core.Logic.{◌≢◌}
use mathlib.Core.Path.{subst₂, subst, ap₂}
use llfree_rs.Base.{
  index-get_or, ℕ, zero, suc, ◌+◌, ◌-◌, ◌*◌, ◌/◌, ◌%◌, ◌^◌, ◌≤◌, ◌<◌, ◌≡◌, refl, ap, sym, ◌∙◌, ◌⊎◌,
  inl, inr, Bool, true, false, not, length, length-set, get_or-set_self, get_or-set_ne, set-get_or,
  set-set, get_or, set, Run, returns, ◌>>=◌, ==_iff, ok, err, ◌==◌, leb, if◌then◌else◌, arith,
  ne→false, le→leb, gt→leb, panics,
}
use llfree_rs.Types.{Res, address}
use llfree_rs.Word.{not64, u64_max}
use llfree_rs.Word.Bit.{block}
use llfree_rs.Word.Block.{middle, high, low-lt}
use llfree_rs.Word.Split.{two-pow-add}
use llfree_rs.Bitfield.{
  Bitfield, len, toggle, toggle_small, toggle_int, toggle_entries, undo_toggle,
}
use llfree_rs.Bitfield.Bits.{Flips, Flips-trans, Flips-nil, IsWords, bit_at, get_or-IsWords}
use llfree_rs.Bitfield.Search.{block_place}
use llfree_rs.Bitfield.Toggle.{
  AllBits, Toggled, with_block, flip_in_word, no_block_in_word, small-Toggled, int-Toggled,
}

-- The `n` entries from `k` on set to `v`.
abbrev pub filled : ℕ → ℕ → ℕ → Bitfield → Bitfield
filled zero k v d = d
filled (suc n) k v d = set (filled n k v d) (k + n) v

pub length-filled : (n k v : ℕ) (d : Bitfield) → length (filled n k v d) ≡ length d
length-filled zero k v d = refl
length-filled (suc n) k v d = length-set (filled n k v d) (k + n) v ∙ length-filled n k v d

pub get_or-filled :
    (n k v j : ℕ) (d : Bitfield) → k + n ≤ j → get_or (filled n k v d) j 0 ≡ get_or d j 0
get_or-filled zero k v j d h = refl
get_or-filled (suc n) k v j d h =
    get_or-set_ne 0 (filled n k v d) (k + n) j v (λ e. absurd (omega arith))
    ∙ get_or-filled n k v j d (omega arith)

set-set_back : (d : Bitfield) (i v w : ℕ) → get_or d i 0 ≡ w → set (set d i v) i w ≡ d
set-set_back d i v w h = set-set d i v w ∙ ap (set d i) (sym h) ∙ set-get_or 0 d i

-- The undo of a partial toggle restores the entries.
undo_toggle-filled :
    (n k x : ℕ) (d : Bitfield)
    → k + n ≤ length d
    → ((j : ℕ) → k ≤ j → j < k + n → get_or d j 0 ≡ x)
    → undo_toggle n k x (filled n k (not64 x) d) ≡ returns d
unfolding undo_toggle
undo_toggle-filled zero k x d fits all = refl
undo_toggle-filled (suc n) k x d fits all =
    let lt : k + n < length (filled n k (not64 x) d) =
      omega (arith, length-filled n k (not64 x) d) in
    let set_lt : k + n < length (filled (suc n) k (not64 x) d) =
      omega (arith, length-filled (suc n) k (not64 x) d) in
    let at : get_or (filled (suc n) k (not64 x) d) (k + n) 0 ≡ not64 x =
      get_or-set_self 0 (filled n k (not64 x) d) (k + n) (not64 x) lt in
    let old : get_or (filled n k (not64 x) d) (k + n) 0 ≡ x =
      get_or-filled n k (not64 x) (k + n) d (omega arith)
      ∙ all (k + n) (omega arith) (omega arith) in
    ap (λ (r : Run ℕ). r >>= λ w. back w)
      (index-get_or 0 (filled (suc n) k (not64 x) d) (k + n) set_lt ∙ ap (λ (w : ℕ). returns w) at)
    ∙ ap (λ (b : Bool). if b then undone else panics) ((==_iff _ _).1 refl)
    ∙ ap (undo_toggle n k x) (set-set_back (filled n k (not64 x) d) (k + n) (not64 x) x old)
    ∙ undo_toggle-filled n k x d (omega arith) (λ j p q. all j p (omega arith))
  where
    undone : Run Bitfield
    undone = undo_toggle n k x (set (filled (suc n) k (not64 x) d) (k + n) x)

    back : ℕ → Run Bitfield
    back w = if w == not64 x then undone else panics

-- The word of 64 bits `e`.
abbrev pub full : Bool → ℕ
full true = u64_max
full false = 0

pub full-eq : (e : Bool) → full e ≡ block e 64
unfolding block
full-eq true = refl
full-eq false = refl

not64-full : (e : Bool) → not64 (full e) ≡ full (not e)
not64-full true = refl
not64-full false = refl

pub middle-word : (w : ℕ) → w < 2 ^ 64 → middle 64 0 w ≡ w
middle-word w h = ap (λ (t : ℕ). t % 2 ^ 64) (div-one w) ∙ mod-eq_of_lt h

-- The change of one whole entry.
entry-Flips :
    (k : ℕ) (e : Bool) (d : Bitfield)
    → k < length d
    → IsWords d
    → get_or d k 0 ≡ full e
    → Flips (k * 64) 64 (not e) d (set d k (full (not e)))
entry-Flips k e d lt ws h =
    let w = get_or d k 0 in
    let w_lt = get_or-IsWords d k ws in
    let off : k * 64 + 0 ≡ k * 64 = omega arith in
    let none_above : high 64 0 w ≡ 0 = ap (λ (t : ℕ). t / 2 ^ 64) (div-one w) ∙ div-eq_of_lt w_lt in
    let fits : 0 + 64 ≤ 64 = omega arith in
    let word : with_block 64 0 fits w w_lt (not e) ≡ full (not e) =
      omega (arith, low-lt 0 w, none_above, full-eq (not e)) in
    subst₂ (λ t v. Flips t 64 (not e) d (set d k v)) off word
      (flip_in_word 64 k 0 d fits lt ws e (middle-word w w_lt ∙ h ∙ full-eq e))

pub filled-Flips :
    (n k : ℕ) (e : Bool) (d : Bitfield)
    → k + n ≤ length d
    → IsWords d
    → ((j : ℕ) → k ≤ j → j < k + n → get_or d j 0 ≡ full e)
    → Flips (k * 64) (n * 64) (not e) d (filled n k (full (not e)) d)
filled-Flips zero k e d fits ws all = Flips-nil (k * 64) (not e) d
filled-Flips (suc n) k e d fits ws all =
    let before = filled-Flips n k e d (omega arith) ws (λ j p q. all j p (omega arith)) in
    let c = filled n k (full (not e)) d in
    let old : get_or c (k + n) 0 ≡ full e =
      get_or-filled n k (full (not e)) (k + n) d (omega arith)
      ∙ all (k + n) (omega arith) (omega arith) in
    let last : Flips ((k + n) * 64) 64 (not e) c (set c (k + n) (full (not e))) =
      entry-Flips (k + n) e c (omega (arith, length-filled n k (full (not e)) d)) (before.words ws)
        old in
    let place : (k + n) * 64 ≡ k * 64 + n * 64 = omega arith in
    let size : n * 64 + 64 ≡ suc n * 64 = omega arith in
    subst (λ t. Flips (k * 64) t (not e) d (set c (k + n) (full (not e)))) size
      (Flips-trans (k * 64) (n * 64) 64 (not e) d c (set c (k + n) (full (not e))) before
        (subst (λ t. Flips t 64 (not e) c (set c (k + n) (full (not e)))) place last))

-- How the `t` entries from `k` on end: all changed, or one differs and none is changed.
abbrev Ended : ℕ → ℕ → Bool → Bitfield → Run (Res (Unit {0}) × Bitfield) → Type 0
Ended t k e d out =
    (((j : ℕ) → k ≤ j → j < k + t → get_or d j 0 ≡ full e)
      × (out ≡ returns (ok tt, filled t k (full (not e)) d)))
    ⊎ ((j : ℕ) × (k ≤ j) × (j < k + t) × (get_or d j 0 ≢ full e) × (out ≡ returns (err address, d)))

-- From round `m` on, `n` rounds either change all entries or restore those that were changed.
toggle_entries-run :
    (n m t k : ℕ) (e : Bool) (d : Bitfield)
    → m + n ≡ t
    → k + t ≤ length d
    → ((j : ℕ) → k ≤ j → j < k + m → get_or d j 0 ≡ full e)
    → Ended t k e d (toggle_entries n (k + m) k (full e) (filled m k (full (not e)) d))
unfolding toggle_entries
toggle_entries-run zero m t k e d total fits all =
    let s : m ≡ t = omega arith in
    inl (
      (λ j p q. all j p (omega arith)),
      ap (λ (x : ℕ). returns (ok tt, filled x k (full (not e)) d)) s,
    )
toggle_entries-run (suc n) m t k e d total fits all =
    elim (ℕ_discrete (get_or d (k + m) 0) (full e)) [
      | yes h ↦
          subst (Ended t k e d)
            (sym (
              run (get_or d (k + m) 0) refl
              ∙ ap (λ (b : Bool). choose b) ((==_iff _ _).1 h)
              ∙ ap₂ (λ (x v : ℕ). toggle_entries n x k (full e) (set c (k + m) v)) next
                  (not64-full e)))
            (toggle_entries-run n (suc m) t k e d (omega arith) fits
              (λ j p q. more h j p q (ℕ_discrete j (k + m))))
      | no h ↦ inr (
        k + m,
        omega arith,
        omega arith,
        h,
        run (get_or d (k + m) 0) refl
            ∙ ap (λ (b : Bool). choose b) (ne→false _ _ h)
            ∙ ap (λ (r : Run Bitfield). r >>= λ d'. returns (err address, d'))
                (ap₂ (λ (x v : ℕ). undo_toggle x k (full e) (filled m k v d)) done
                    (sym (not64-full e))
                  ∙ undo_toggle-filled m k (full e) d (omega arith) all),
      )
    ]
  where
    c : Bitfield
    c = filled m k (full (not e)) d

    next : k + m + 1 ≡ k + suc m
    next = omega arith

    done : k + m - k ≡ m
    done = omega arith

    choose : Bool → Run (Res (Unit {0}) × Bitfield)
    choose b =
        if b
        then toggle_entries n (k + m + 1) k (full e) (set c (k + m) (not64 (full e)))
        else (undo_toggle (k + m - k) k (full e) c >>= λ d'. returns (err address, d'))

    run :
        (w : ℕ)
        → get_or d (k + m) 0 ≡ w
        → toggle_entries (suc n) (k + m) k (full e) c ≡ choose (w == full e)
    run w h =
        let lt : k + m < length c = omega (arith, length-filled m k (full (not e)) d) in
        let word : get_or c (k + m) 0 ≡ get_or d (k + m) 0 =
          get_or-filled m k (full (not e)) (k + m) d (omega arith) in
        ap (λ (r : Run ℕ). r >>= λ x. choose (x == full e))
          (index-get_or 0 c (k + m) lt ∙ ap (λ (x : ℕ). returns x) (word ∙ h))

    more :
        get_or d (k + m) 0 ≡ full e
        → (j : ℕ) → k ≤ j
        → j < k + suc m
        → Dec (j ≡ k + m)
        → get_or d j 0 ≡ full e
    more h j p q (yes s) = ap (λ (x : ℕ). get_or d x 0) s ∙ h
    more h j p q (no ne) = all j p (omega arith)

-- Orders above 6: whole entries.
entries-Toggled :
    (n k i : ℕ) (e : Bool) (d : Bitfield)
    → i ≡ k * 64
    → k + n ≤ length d
    → IsWords d
    → Toggled i (n * 64) e d (toggle_entries n k k (full e) d)
entries-Toggled n k i e d place fits ws =
    let start : k + 0 ≡ k = omega arith in
    let ended : Ended n k e d (toggle_entries n k k (full e) d) =
      subst (λ x. Ended n k e d (toggle_entries n x k (full e) d)) start
        (toggle_entries-run n 0 n k e d (omega arith) fits (λ j p q. absurd (omega arith))) in
    subst (λ x. Toggled x (n * 64) e d (toggle_entries n k k (full e) d)) (sym place)
      (elim ended [
        | inl (all, r) ↦ inl (filled n k (full (not e)) d, r, filled-Flips n k e d fits ws all)
        | inr (j, p, q, ne, r) ↦ inr (address, r, λ all. no_entry j p q ne all)
      ])
  where
    no_entry : (j : ℕ) → k ≤ j → j < k + n → get_or d j 0 ≢ full e → ¬ AllBits (k * 64) (n * 64) e d
    no_entry j p q ne all =
        no_block_in_word 64 j 0 d (omega arith) (omega arith) ws e
          (λ h. ne (sym (middle-word (get_or d j 0) (get_or-IsWords d j ws)) ∙ h ∙ sym (full-eq e)))
          λ b lt.
            let at : j * 64 + 0 + b ≡ k * 64 + ((j - k) * 64 + b) = omega arith in
            ap (bit_at d) at ∙ all ((j - k) * 64 + b) (omega arith)

-- For every aligned block of 2 ^ order bits within the bitfield, `toggle` ends in one of two ways:
-- all bits of the block had the expected value, and the result is the bitfield where exactly these
-- are flipped; or it reports an error, one of the bits differed, and the bitfield is as before,
-- also where the code had to undo a part of the change.
pub toggle-Toggled :
    (i order : ℕ) (e : Bool) (d : Bitfield)
    → i % 2 ^ order ≡ 0
    → i + 2 ^ order ≤ len d
    → IsWords d
    → Toggled i (2 ^ order) e d (toggle i order e d)
unfolding toggle
toggle-Toggled i order e d aligned within ws = of_order (dec_le order 2) (dec_le order 6)
  where
    whole : i ≡ i / 2 ^ order * 2 ^ order
    whole = omega (arith, mod-add-div i (2 ^ order), aligned)

    fits : order ≤ 6 → i % 64 + 2 ^ order ≤ 64
    fits h = let (k, q, place, q_lt, f) = block_place order i h aligned in omega arith

    word : (b : Bool) → full b ≡ (if b then u64_max else 0)
    word true = refl
    word false = refl

    of_order :
        Dec (order ≤ 2)
        → Dec (order ≤ 6)
        → Toggled i (2 ^ order) e d (
            if leb order 2
            then toggle_small i order e d
            else if leb order 6
            then toggle_int (2 ^ order) i e d
            else toggle_entries (2 ^ order / 64) (i / 64) (i / 64) (if e then u64_max else 0) d)
    of_order (yes a) _ =
        rw (le→leb order 2 a)
          (small-Toggled order i e d (fits (omega arith)) (omega (arith, one-le-pow order 2)) ws)
    of_order (no a) (yes b) =
        rw (gt→leb order 2 (omega arith), le→leb order 6 b)
          (int-Toggled (2 ^ order) i e d (sym whole) (fits b) (omega (arith, one-le-pow order 2))
            ws)
    of_order (no a) (no b) =
        let n = 2 ^ (order - 6) in
        let o : order ≡ order - 6 + 6 = omega arith in
        let size : 2 ^ order ≡ n * 64 = ap (λ (t : ℕ). 2 ^ t) o ∙ two-pow-add (order - 6) 6 in
        let count : 2 ^ order / 64 ≡ n = omega arith in
        let place : i ≡ i / 64 * 64 =
          omega (arith, whole, ap (λ (t : ℕ). i / 2 ^ order * t) size) in
        rw (gt→leb order 2 (omega arith), gt→leb order 6 (omega arith))
          (subst₂ (λ x out. Toggled i x e d out) (sym size)
            (ap₂ (λ (x v : ℕ). toggle_entries x (i / 64) (i / 64) v d) (sym count) (word e))
            (entries-Toggled n (i / 64) i e d place (omega arith) ws))
