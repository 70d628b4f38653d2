-- ===== src/Local/Tests.antt =====
-- A row of frees in core/src/local.rs.
use llfree_rs.Base.{◌≡◌, suc, leb, arith}
use llfree_rs.Local.{empty, frees_push}
use llfree_rs.Local.Frees.{pushed, frees_push-limit}

frees_push-limit_example : (frees_push 7 (pushed (suc 4) 7 empty)).0 ≡ leb 4 4
frees_push-limit_example = frees_push-limit 4 7 empty (λ e. omega (arith, e))
