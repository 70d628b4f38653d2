-- ===== src/Lower/Clients/Tests.antt =====
-- Clients of a tree of free frames.
use llfree_rs.Base.{ℕ, ◌+◌, ◌≤◌, ◌≡◌, refl, Bool, false, List, [], ◌∷◌, Run, returns, ok, arith}
use llfree_rs.Types.{o}
use llfree_rs.Lower
use llfree_rs.Lower.{Lower, put}
use llfree_rs.Lower.Frames.{Changes, taken}
use llfree_rs.Lower.Sample.{free_tree, free_tree-IsValid}
use llfree_rs.Lower.Clients.{System, Call, allocate, release, run, holders}
use llfree_rs.Lower.Clients.Held.{Accounts}
use llfree_rs.Lower.Clients.Safety.{run-Accounts, run-put}

abbrev calls : List Call
calls = allocate 0 3 ∷ allocate 600 9 ∷ allocate 0 10 ∷ release 1 ∷ allocate 700 0 ∷ []

run-Accounts_example :
    (s : System) × (run calls (record { lower = free_tree; held = [] }) ≡ returns s)
    × Accounts free_tree s
    × ((f : ℕ) → taken free_tree f + holders s.held f ≤ 1)
run-Accounts_example = run-Accounts free_tree calls free_tree-IsValid (omega arith)

-- The state after one allocation, as the code computes it.
abbrev after : Run System → System
after (returns s) = s
after _ = record { lower = free_tree; held = [] }

abbrev one_call : List Call
one_call = allocate 600 9 ∷ []

abbrev holding : System
unfolding run
holding = after (run one_call (record { lower = free_tree; held = [] }))

run-put_example :
    (fr : Bool) × (l : Lower) × (put 512 (o 9) holding.lower ≡ returns (ok fr, l))
    × Changes 512 512 false holding.lower l
unfolding run holding llfree_rs.Lower.get
run-put_example =
    run-put free_tree one_call holding 0 (record { frame = 512; order = 9 }) free_tree-IsValid
      (omega arith) refl refl
