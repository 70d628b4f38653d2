-- ===== src/Util/Random.antt =====
-- core/src/util.rs: the random number generator `WyRand`.
use llfree_rs.Base.{
  ℕ, zero, suc, ◌+◌, ◌-◌, ◌*◌, ◌/◌, ◌%◌, ◌^◌, bit_xor, List, length, set, index, ltb, if◌then◌else◌,
  Run, returns, ◌>>=◌,
}

pub record WyRand : Type 0 where
  pub seed : ℕ

unfoldable pub gen : WyRand → ℕ × WyRand
gen r =
    let seed = (r.seed + 0xa076_1d64_78bd_642f) % 2 ^ 64 in
    let t = seed * bit_xor seed 0xe703_7ed1_a0b4_28db % 2 ^ 128 in
    (bit_xor (t / 2 ^ 64) t % 2 ^ 64, record { seed = seed })

-- A number of the range from `a` to `b`, without `b`.
unfoldable pub range : ℕ → ℕ → WyRand → ℕ × WyRand
unfolding gen
range a b r = let (val, r') = gen r in (if ltb a b then val % (b - a) + a else 0, r')

-- The rounds of `shuffle` from `i` on, where `n` are left.
unfoldable pub shuffle_from : {A : Type 0} → ℕ → ℕ → List A → WyRand → Run (List A × WyRand)
unfolding range
shuffle_from zero i xs r = returns (xs, r)
shuffle_from (suc n) i xs r =
    let (j, r') = range i (length xs) r in
    (do x ← index xs i; y ← index xs j; shuffle_from n (suc i) (set (set xs i y) j x) r')

unfoldable pub shuffle : {A : Type 0} → List A → WyRand → Run (List A × WyRand)
unfolding shuffle_from
shuffle xs r = shuffle_from (length xs - 1) 0 xs r
