-- ===== src/Lower/Tests.antt =====
-- An allocation and a free in a tree of 4096 frames.
use llfree_rs.Base.{refl, arith}
use llfree_rs.Types.{o}
use llfree_rs.Lower.{get, put}
use llfree_rs.Lower.Entry.{new_free}
use llfree_rs.Lower.Blocks.{Gets}
use llfree_rs.Lower.GetMax.Loop.{get-Gets}
use llfree_rs.Lower.Setup.{recover_entry}
use llfree_rs.Lower.Recover.{Recovered, recover_entry-Recovered}
use llfree_rs.Lower.PutSmall.{Puts}
use llfree_rs.Lower.Put.Whole.{put-Puts}
use llfree_rs.Lower.Sample.{
  clear, clear-IsField, free_tree, free_tree-IsValid, huge_tree, huge_tree-IsValid,
}

get-Gets_example : Gets 700 3 free_tree (get 700 (o 3) free_tree)
get-Gets_example = get-Gets 700 (o 3) free_tree free_tree-IsValid (omega arith) (omega arith)

put-Puts_example : Puts 16 3 huge_tree (put 16 (o 3) huge_tree)
put-Puts_example =
    put-Puts 16 (o 3) huge_tree huge_tree-IsValid (omega arith) (omega arith) (omega arith)

recover_entry-Recovered_example : Recovered (new_free 7) clear (recover_entry (new_free 7) clear)
recover_entry-Recovered_example =
    recover_entry-Recovered (new_free 7) clear refl clear-IsField.words
