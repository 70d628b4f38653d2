-- ===== src/Util/Shuffle.antt =====
-- What the random number generator of core/src/util.rs promises.
use native.Mathlib.Nat.{mod-lt}
use llfree_rs.Base.{
  ℕ, zero, suc, ◌+◌, ◌-◌, ◌%◌, ◌≤◌, ◌<◌, ◌≡◌, refl, ap, sym, ◌∙◌, List, [], ◌∷◌, length, set,
  length-set, index-get_or, get_or, lt→ltb, returns, arith, bind-returns, Bool, Bool-cases, ==_iff,
  ◌==◌, inl, inr, get_or-set_ne, set-set, set-get_or, ◌≢◌, false,
}
use llfree_rs.Util.{count_if}
use llfree_rs.Util.Random.{WyRand, gen, range, shuffle_from, shuffle}

abbrev pub count : {A : Type 0} → (A → Bool) → List A → ℕ
count p [] = 0
count p (x ∷ xs) = count_if (p x) + count p xs

-- `swap`, for indices in range.
unfoldable swapped : {A : Type 0} → A → ℕ → ℕ → List A → List A
swapped d i j xs = set (set xs i (get_or xs j d)) j (get_or xs i d)

false→ne : {i j : ℕ} → (i == j) ≡ false → i ≢ j
false→ne {i = i} {j = j} e h = ground arith

in_range : (v a b : ℕ) → a < b → (a ≤ v % (b - a) + a) × (v % (b - a) + a < b)
in_range v a b h = (omega arith, omega (arith, mod-lt v {m = b - a} (omega arith)))

range-bounds : (a b : ℕ) (r : WyRand) → a < b → (a ≤ (range a b r).0) × ((range a b r).0 < b)
unfolding range
range-bounds a b r h = rw (lt→ltb a b h) (in_range (gen r).0 a b h)

-- With the next number in the range, a round swaps two elements and goes on.
round :
    {A : Type 0} (d : A) (n i : ℕ) (xs : List A) (r : WyRand)
    → i < length xs
    → (range i (length xs) r).0 < length xs
    → shuffle_from (suc n) i xs r
      ≡ shuffle_from n (suc i) (swapped d i (range i (length xs) r).0 xs) (range i (length xs) r).1
unfolding shuffle_from swapped
round d n i xs r hi hj =
    bind-returns _ (index-get_or d xs i hi) ∙ bind-returns _ (index-get_or d xs _ hj)

length-swapped :
    {A : Type 0} (d : A) (i j : ℕ) (xs : List A) → length (swapped d i j xs) ≡ length xs
unfolding swapped
length-swapped d i j xs = length-set (set xs i (get_or xs j d)) j _ ∙ length-set xs i _

module _ {A : Type 0} (p : A → Bool) where
  count-set :
      (d : A) (xs : List A) (i : ℕ) (v : A)
      → i < length xs
      → count p (set xs i v) + count_if (p (get_or xs i d)) ≡ count p xs + count_if (p v)
  count-set d [] i v h = absurd (omega arith)
  count-set d (x ∷ xs) zero v h = omega arith
  count-set d (x ∷ xs) (suc i) v h = omega (arith, count-set d xs i v (omega arith))

  count-swapped :
      (d : A) (i j : ℕ) (xs : List A)
      → i < length xs
      → j < length xs
      → count p (swapped d i j xs) ≡ count p xs
  unfolding swapped
  count-swapped d i j xs hi hj = elim (Bool-cases (i == j)) [
    | inl e ↦
        let same : j ≡ i = sym ((==_iff i j).0 e) in
        rw same (ap (count p) (set-set xs i (get_or xs i d) (get_or xs i d) ∙ set-get_or d xs i))
    | inr e ↦ apart e
  ]
    where
      apart : (i == j) ≡ false → count p (swapped d i j xs) ≡ count p xs
      apart e = omega (
        arith,
        count-set d xs i (get_or xs j d) hi,
        count-set d (set xs i (get_or xs j d)) j (get_or xs i d)
            (omega (arith, length-set xs i (get_or xs j d))),
        ap (λ a. count_if (p a)) (get_or-set_ne d xs i j (get_or xs j d) (false→ne e)),
      )

  rounds :
      (d : A) (n i : ℕ) (xs : List A) (r : WyRand)
      → i + n < length xs
      → (ys : List A) × (s : WyRand) × (shuffle_from n i xs r ≡ returns (ys, s))
        × (length ys ≡ length xs)
        × (count p ys ≡ count p xs)
  unfolding shuffle_from
  rounds d zero i xs r h = (xs, r, refl, refl, refl)
  rounds d (suc n) i xs r h =
      let b = range-bounds i (length xs) r (omega arith) in
      let j = (range i (length xs) r).0 in
      let (ys, s, e, l, c) =
        rounds d n (suc i) (swapped d i j xs) (range i (length xs) r).1
          (omega (arith, length-swapped d i j xs)) in
      (
        ys,
        s,
        round d n i xs r (omega arith) b.1 ∙ e,
        l ∙ length-swapped d i j xs,
        c ∙ count-swapped d i j xs (omega arith) b.1,
      )

-- For every list and state of the generator, `shuffle` panics nowhere and returns a list of the
-- same length that has, for every test, as many elements that pass it as the list had.
pub shuffle-Permutes :
    {A : Type 0} (p : A → Bool) (xs : List A) (r : WyRand)
    → (ys : List A) × (s : WyRand) × (shuffle xs r ≡ returns (ys, s))
      × (length ys ≡ length xs)
      × (count p ys ≡ count p xs)
unfolding shuffle shuffle_from
shuffle-Permutes p [] r = ([], r, refl, refl, refl)
shuffle-Permutes p (x ∷ xs) r = rounds p x (suc (length xs) - 1) 0 (x ∷ xs) r (omega arith)
