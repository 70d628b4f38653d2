-- ===== src/Lower/Query/Tests.antt =====
-- Questions to a tree of 4096 frames of which the first huge frame is allocated.
use llfree_rs.Base.{◌-◌, ◌*◌, ◌≡◌, refl, length, arith}
use llfree_rs.Word.Bit.{sum_below}
use llfree_rs.Lower.Frames.{taken}
use llfree_rs.Lower.Sample.{huge_tree, huge_tree-IsValid}
use llfree_rs.Lower.Query.{free_frames, is_free}
use llfree_rs.Lower.Query.Totals.{free_frames-sum}
use llfree_rs.Lower.Query.Free.{Tells, is_free-Tells}

free_frames-sum_example :
    free_frames huge_tree
    ≡ sum_below (length huge_tree.bitfields * 512) (λ f. 1 - taken huge_tree f)
free_frames-sum_example = free_frames-sum huge_tree huge_tree-IsValid

is_free-Tells_example : Tells 1024 1024 huge_tree (is_free 1024 10 huge_tree)
is_free-Tells_example =
    is_free-Tells 1024 10 huge_tree huge_tree-IsValid (omega arith) (omega arith) refl (omega arith)
