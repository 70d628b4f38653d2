-- ===== src/Util/Tests.antt =====
-- A run of the random number generator.
use llfree_rs.Base.{ℕ, ◌≡◌, refl, List, [], ◌∷◌, length, leb, returns}
use llfree_rs.Util.Random.{WyRand, gen, shuffle}
use llfree_rs.Util.Shuffle.{count, shuffle-Permutes}

abbrev seeded : WyRand
seeded = record { seed = 42 }

gen_test : (gen seeded).0 ≡ 12558987674375533620
unfolding gen
gen_test = refl

abbrev four : List ℕ
four = 5 ∷ 3 ∷ 8 ∷ 3 ∷ []

shuffle-Permutes_example :
    (ys : List ℕ) × (s : WyRand) × (shuffle four seeded ≡ returns (ys, s))
    × (length ys ≡ length four)
    × (count (leb 4) ys ≡ count (leb 4) four)
shuffle-Permutes_example = shuffle-Permutes (leb 4) four seeded
