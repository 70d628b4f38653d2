-- ===== src/Bitfield/Search/Entries.antt =====
-- `set_first_zero_entries` of core/src/bitfield.rs, orders above 6, and `set_first_zeros` for all
-- orders.
use native.Mathlib.Nat.{
  one-le-pow, mod-add-div, add-mul-div_right, div-eq_of_lt, mul-mod_left, mul-le-mul_right,
}
use native.Mathlib.Decide.{ℕ_discrete, dec_le, dec_lt}
use mathlib.Core.Logic.{◌≢◌}
use mathlib.Core.Path.{subst}
use llfree_rs.Base.{
  ℕ, zero, suc, ◌+◌, ◌-◌, ◌*◌, ◌/◌, ◌%◌, ◌^◌, ◌≤◌, ◌<◌, ◌≡◌, refl, ap, sym, ◌∙◌, ◌⊎◌, inl, inr,
  Bool, true, false, length, get_or, set, min, Run, returns, index-get_or, ◌>>=◌, ==_iff, ok, err,
  ◌==◌, if◌then◌else◌, arith, ne→false, lt→ltb,
}
use llfree_rs.Types.{Res, memory}
use llfree_rs.Word.{u64_max}
use llfree_rs.Word.Split.{two-pow-add}
use llfree_rs.Bitfield.{
  Bitfield, entries_zero, claim_entries, undo_claim, search_chunks, set_first_zero_entries,
  set_first_zeros,
}
use llfree_rs.Bitfield.Bits.{Flips, IsWords, bit_at, get_or-IsWords}
use llfree_rs.Bitfield.Search.{Found, NoBlock, set_first_zeros-Found_small}
use llfree_rs.Bitfield.Toggle.{no_block_in_word}
use llfree_rs.Bitfield.Toggle.Entries.{
  filled, length-filled, get_or-filled, filled-Flips, middle-word, full-eq,
}

abbrev pub AllZero : ℕ → ℕ → Bitfield → Type 0
AllZero k n d = (j : ℕ) → k ≤ j → j < k + n → get_or d j 0 ≡ 0

abbrev pub SomeSet : ℕ → ℕ → Bitfield → Type 0
SomeSet k n d = (j : ℕ) × (k ≤ j) × (j < k + n) × (get_or d j 0 ≢ 0)

pub entries_zero-eq :
    (n k : ℕ) (d : Bitfield)
    → k + n ≤ length d
    → ((entries_zero n k d ≡ returns true) × AllZero k n d)
      ⊎ ((entries_zero n k d ≡ returns false) × SomeSet k n d)
unfolding entries_zero
entries_zero-eq zero k d fits = inl (refl, λ j p q. absurd (omega arith))
entries_zero-eq (suc n) k d fits = elim (ℕ_discrete (get_or d k 0) 0) [
  | no ne ↦
      inr (run (get_or d k 0) refl ∙ ap choose (ne→false _ _ ne), (k, omega arith, omega arith, ne))
  | yes e ↦
      let here = run (get_or d k 0) refl ∙ ap choose ((==_iff _ _).1 e) in
      elim (entries_zero-eq n (k + 1) d (omega arith)) [
        | inl (r, all) ↦ inl (here ∙ r, λ j p q. at e all j p q (ℕ_discrete j k))
        | inr (r, (j, p, q, ne)) ↦ inr (here ∙ r, (j, omega arith, omega arith, ne))
      ]
]
  where
    choose : Bool → Run Bool
    choose b = if b then entries_zero n (k + 1) d else returns false

    run : (w : ℕ) → get_or d k 0 ≡ w → entries_zero (suc n) k d ≡ choose (w == 0)
    run w h =
        ap (λ (r : Run ℕ). r >>= λ x. choose (x == 0))
          (index-get_or 0 d k (omega arith) ∙ ap (λ (x : ℕ). returns x) h)

    at :
        get_or d k 0 ≡ 0
        → AllZero (k + 1) n d
        → (j : ℕ) → k ≤ j
        → j < k + suc n
        → Dec (j ≡ k)
        → get_or d j 0 ≡ 0
    at e all j p q (yes s) = ap (λ (x : ℕ). get_or d x 0) s ∙ e
    at e all j p q (no ne) = all j (omega arith) (omega arith)

claim_entries-eq :
    (n j k t : ℕ) (d : Bitfield)
    → j + n ≡ t
    → k + t ≤ length d
    → AllZero k t d
    → claim_entries n j k (filled j k u64_max d) ≡ returns (filled t k u64_max d)
unfolding claim_entries
claim_entries-eq zero j k t d total fits all =
    let s : j ≡ t = omega arith in ap (λ (x : ℕ). returns (filled x k u64_max d)) s
claim_entries-eq (suc n) j k t d total fits all =
    ap (λ (r : Run ℕ). r >>= λ x. choose (x == 0))
      (index-get_or 0 c (k + j) (omega (arith, length-filled j k u64_max d))
        ∙ ap (λ (x : ℕ). returns x)
            (get_or-filled j k u64_max (k + j) d (omega arith)
              ∙ all (k + j) (omega arith) (omega arith)))
    ∙ ap (λ (x : ℕ). claim_entries n x k (set c (k + j) u64_max)) next
    ∙ claim_entries-eq n (suc j) k t d (omega arith) fits all
  where
    c : Bitfield
    c = filled j k u64_max d

    next : j + 1 ≡ suc j
    next = omega arith

    choose : Bool → Run Bitfield
    choose b = if b then claim_entries n (j + 1) k (set c (k + j) u64_max) else undo_claim j k c

-- The chunks of `m` entries, where `m` divides the length.
module _ (order m q : ℕ) (d : Bitfield) (size : m * 64 ≡ 2 ^ order) (parts : length d ≡ q * m)
    (ws : IsWords d) where
  search_chunks-Found :
      (n i : ℕ)
      → i + n ≡ q
      → Found order d (search_chunks n i m d)
        ⊎ ((search_chunks n i m d ≡ returns (err memory, d))
            × ((k : ℕ) → i ≤ k → k < q → SomeSet (k * m) m d))
  unfolding search_chunks
  search_chunks-Found zero i total = inr (refl, λ k p r. absurd (omega arith))
  search_chunks-Found (suc n) i total = elim (entries_zero-eq m (i * m) d fits) [
    | inl (zero_run, all) ↦
        let claimed : claim_entries m 0 (i * m) d ≡ returns (filled m (i * m) u64_max d) =
          claim_entries-eq m 0 (i * m) m d (omega arith) fits all in
        inl (
          i * m * 64,
          filled m (i * m) u64_max d,
          run
              ∙ ap (λ (r : Run Bool). r >>= body m) zero_run
              ∙ ap (λ (r : Run Bitfield). r >>= λ d'. returns (ok (i * m * 64), d')) claimed,
          record {
            aligned = ap (λ (t : ℕ). t % 2 ^ order) offset ∙ mul-mod_left i (2 ^ order);
            within = omega (arith, size, fits);
            flips =
                subst (λ t. Flips (i * m * 64) t true d (filled m (i * m) u64_max d)) size
                  (filled-Flips m (i * m) false d fits ws all);
          },
        )
    | inr (set_run, some_set) ↦
        let here = run ∙ ap (λ (r : Run Bool). r >>= body m) set_run in
        elim (search_chunks-Found n (i + 1) (omega arith)) [
          | inl (off, d', r, f) ↦ inl (off, d', here ∙ r, f)
          | inr (r, later) ↦
              inr (here ∙ r, λ k p k_lt. either some_set later k p k_lt (ℕ_discrete i k))
        ]
  ]
    where
      last : (i + 1) * m ≤ q * m
      last = mul-le-mul_right m (omega arith)

      fits : i * m + m ≤ length d
      fits = omega (arith, last, parts)

      whole : min m (length d - i * m) ≡ m
      whole = omega (arith, last, parts)

      offset : i * m * 64 ≡ i * 2 ^ order
      offset = omega (arith, ap (λ (t : ℕ). i * t) size)

      body : ℕ → Bool → Run (Res ℕ × Bitfield)
      body s free =
          if free
          then (claim_entries s 0 (i * m) d >>= λ d'. returns (ok (i * m * 64), d'))
          else search_chunks n (i + 1) m d

      run : search_chunks (suc n) i m d ≡ (entries_zero m (i * m) d >>= body m)
      run = ap (λ (s : ℕ). entries_zero s (i * m) d >>= body s) whole

      either :
          SomeSet (i * m) m d
          → ((k : ℕ) → i + 1 ≤ k → k < q → SomeSet (k * m) m d)
          → (k : ℕ) → i ≤ k
          → k < q
          → Dec (i ≡ k)
          → SomeSet (k * m) m d
      either here later k p k_lt (yes same) = subst (λ (t : ℕ). SomeSet (t * m) m d) same here
      either here later k p k_lt (no ne) = later k (omega arith) k_lt

  -- Chunks that all have a set bit leave no block.
  chunks-NoBlock : ((k : ℕ) → k < q → SomeSet (k * m) m d) → NoBlock order d
  chunks-NoBlock chunks off aligned within zeros =
      let k = off / 2 ^ order in
      let place : off ≡ k * (m * 64) =
        omega (arith, mod-add-div off (2 ^ order), aligned, ap (λ (t : ℕ). k * t) size) in
      let k_lt : k < q = elim (dec_lt k q) [
        | yes lt ↦ lt
        | no ge ↦
            let past : q * m ≤ k * m = mul-le-mul_right m (omega arith) in
            absurd (omega (arith, past, place, parts, size, one-le-pow order 2))
      ] in
      let (j, p, r, ne) = chunks k k_lt in
      no_block_in_word 64 j 0 d (omega arith) (omega arith) ws false
        (λ h.
          ne (sym (middle-word (get_or d j 0) (get_or-IsWords d j ws)) ∙ h ∙ sym (full-eq false)))
        λ b lt.
          let at : j * 64 + 0 + b ≡ off + ((j - k * m) * 64 + b) = omega (arith, place) in
          ap (bit_at d) at ∙ zeros ((j - k * m) * 64 + b) (omega (arith, size))

set_first_zero_entries-Found :
    (order : ℕ) (d : Bitfield)
    → 6 < order
    → length d % 2 ^ (order - 6) ≡ 0
    → IsWords d
    → Found order d (set_first_zero_entries order d)
      ⊎ ((set_first_zero_entries order d ≡ returns (err memory, d)) × NoBlock order d)
unfolding set_first_zero_entries
set_first_zero_entries-Found order d large divides ws =
    let m = 2 ^ (order - 6) in
    let q = length d / m in
    let o : order ≡ order - 6 + 6 = omega arith in
    let size : m * 64 ≡ 2 ^ order = sym (ap (λ (t : ℕ). 2 ^ t) o ∙ two-pow-add (order - 6) 6) in
    let parts : length d ≡ q * m = omega (arith, mod-add-div (length d) m, divides) in
    let shuffle : length d + m - 1 ≡ m - 1 + q * m =
      omega (arith, parts, one-le-pow (order - 6) 2) in
    let below : m - 1 < m = omega (arith, one-le-pow (order - 6) 2) in
    let none_left : (m - 1) / m + q ≡ q = omega (arith, div-eq_of_lt below) in
    let rounds : (length d + m - 1) / m ≡ q =
      ap (λ (t : ℕ). t / m) shuffle
      ∙ add-mul-div_right (m - 1) q (one-le-pow (order - 6) 2 (omega arith))
      ∙ none_left in
    subst
      (λ n.
        Found order d (search_chunks n 0 m d)
        ⊎ ((search_chunks n 0 m d ≡ returns (err memory, d)) × NoBlock order d))
      (sym rounds)
      (elim (search_chunks-Found order m q d size parts ws q 0 (omega arith)) [
        | inl found ↦ inl found
        | inr (r, chunks) ↦
            inr (r, chunks-NoBlock order m q d size parts ws (λ k lt. chunks k (omega arith) lt))
      ])

-- `set_first_zeros` ends in one of two ways: it returns an aligned offset whose 2 ^ order bits
-- were all zero and are now set, with every other bit as before; or it reports no memory, leaves
-- the bitfield as it was, and no aligned block of zeros exists. For orders above 6 the size of a
-- block in entries has to divide the number of entries.
pub set_first_zeros-Found :
    (start order : ℕ) (d : Bitfield)
    → (order ≤ 6) ⊎ (length d % 2 ^ (order - 6) ≡ 0)
    → IsWords d
    → start < length d
    → Found order d (set_first_zeros start order d)
      ⊎ ((set_first_zeros start order d ≡ returns (err memory, d)) × NoBlock order d)
unfolding set_first_zeros
set_first_zeros-Found start order d divides ws lt = elim (dec_le order 6) [
  | yes small ↦ set_first_zeros-Found_small start order d small ws lt
  | no large ↦
      rw (lt→ltb 6 order (omega arith))
        (set_first_zero_entries-Found order d (omega arith) (divides_large large divides) ws)
]
  where
    divides_large :
        ¬ (order ≤ 6)
        → (order ≤ 6) ⊎ (length d % 2 ^ (order - 6) ≡ 0)
        → length d % 2 ^ (order - 6) ≡ 0
    divides_large large (inl small) = absurd (large small)
    divides_large large (inr e) = e
