-- ===== src/Wrapper/Tests.antt =====
-- A zone over an allocator that only counts, and a page after a restart.
use llfree_rs.Base.{ℕ, ◌+◌, ◌-◌, ◌≡◌, refl, true, false, returns, ok, err, arith}
use llfree_rs.Types.{initialization, recover, o}
use llfree_rs.Wrapper.{Alloc, Meta, zone, zone_get, zone_put, start_mode, dropped}
use llfree_rs.Wrapper.Zone.{zone_put-zone_get, start_mode-restart}

-- It hands out the frames one after the other.
abbrev counter : Alloc ℕ
counter = record {
  metadata_size = λ cores frames. returns (record { local = 0; trees = 0; lower = 0 });
  new = λ cores frames init meta. returns (ok 0);
  get = λ core flags n. returns (ok n, n + 1);
  put = λ core frame flags n. returns (ok tt, n - 1);
  frames = λ n. 64;
  cores = λ n. 1;
  free_frames = λ n. 64 - n;
  free_huge = λ n. 0;
  is_free = λ frame order n. returns true;
  free_at = λ frame order n. returns 0;
  drain = λ core n. returns (ok tt, n);
}

zone_put-zone_get_example :
    (zone_get counter 0 (o 0) (zone 5 1024) ≡ returns (ok (5 + 1024), zone 6 1024))
    × (zone_put counter 1 (5 + 1024) (o 0) (zone 6 1024) ≡ returns (ok tt, zone 5 1024))
zone_put-zone_get_example =
    zone_put-zone_get counter 0 1 5 1024 (o 0) 5 6 5 (ok tt) refl (omega arith) refl

abbrev blank : Meta
blank = record { magic = 0; frames = 0; crashed = false }

start_mode-restart_example :
    ((start_mode true 4096 (dropped (start_mode false 4096 blank).1)).0 ≡ ok (recover false))
    × ((start_mode true 4096 (start_mode false 4096 blank).1).0 ≡ ok (recover true))
    × ((start_mode true 4096 (start_mode true 4096 (dropped (start_mode false 4096 blank).1)).1).0
        ≡ ok (recover true))
    × ((start_mode true 64 (start_mode false 4096 blank).1).0 ≡ err initialization)
start_mode-restart_example = start_mode-restart 4096 64 blank (λ e. omega (arith, e))
