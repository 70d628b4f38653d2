-- ===== src/Word/Sums.antt =====
-- Sums over a range of indices.
use llfree_rs.Base.{ℕ, zero, suc, ◌+◌, ◌*◌, ◌≤◌, ◌<◌, ◌≡◌, refl, ap, ◌∙◌, ◌⊎◌, inl, inr, arith}
use llfree_rs.Word.Bit.{sum_below}

pub sum_below-ext :
    (n : ℕ) (f g : ℕ → ℕ) → ((j : ℕ) → j < n → f j ≡ g j) → sum_below n f ≡ sum_below n g
unfolding sum_below
sum_below-ext zero f g h = refl
sum_below-ext (suc n) f g h = omega (
  arith,
  h 0 (omega arith),
  sum_below-ext n (λ j. f (suc j)) (λ j. g (suc j)) (λ j lt. h (suc j) (omega arith)),
)

pub sum_below-const : (n c : ℕ) (f : ℕ → ℕ) → ((j : ℕ) → j < n → f j ≡ c) → sum_below n f ≡ n * c
unfolding sum_below
sum_below-const zero c f h = omega arith
sum_below-const (suc n) c f h = omega (
  arith,
  h 0 (omega arith),
  sum_below-const n c (λ j. f (suc j)) (λ j lt. h (suc j) (omega arith)),
)

pub sum_below-add :
    (a b : ℕ) (f : ℕ → ℕ) → sum_below (a + b) f ≡ sum_below a f + sum_below b (λ j. f (a + j))
unfolding sum_below
sum_below-add zero b f =
    let e : 0 + b ≡ b = omega arith in
    ap (λ (t : ℕ). sum_below t f) e
    ∙ sum_below-ext b f (λ j. f (0 + j)) (λ j lt. ap f (omega arith))
    ∙ omega arith
sum_below-add (suc a) b f =
    let e : suc a + b ≡ suc (a + b) = omega arith in
    ap (λ (t : ℕ). sum_below t f) e
    ∙ omega (
      arith,
      sum_below-add a b (λ j. f (suc j)),
      sum_below-ext b (λ j. f (suc (a + j))) (λ j. f (suc a + j)) (λ j lt. ap f (omega arith)),
    )

-- Two functions that agree outside a block and are constant on it.
pub sum_below-block :
    (off n r x y : ℕ) (f g : ℕ → ℕ)
    → ((j : ℕ) → j < n → f (off + j) ≡ x)
    → ((j : ℕ) → j < n → g (off + j) ≡ y)
    → ((j : ℕ) → (j < off) ⊎ (off + n ≤ j) → g j ≡ f j)
    → sum_below (off + (n + r)) g + n * x ≡ sum_below (off + (n + r)) f + n * y
sum_below-block off n r x y f g before after outside = omega (
  arith,
  sum_below-add off (n + r) f,
  sum_below-add off (n + r) g,
  sum_below-add n r (λ j. f (off + j)),
  sum_below-add n r (λ j. g (off + j)),
  sum_below-const n x (λ j. f (off + j)) before,
  sum_below-const n y (λ j. g (off + j)) after,
  sum_below-ext off g f (λ j lt. outside j (inl lt)),
  sum_below-ext r (λ j. g (off + (n + j))) (λ j. f (off + (n + j)))
      (λ j lt. outside (off + (n + j)) (inr (omega arith))),
)
