-- ===== src/Wrapper/Zone.antt =====
-- What the wrappers of core/src/wrapper.rs add to an allocator.
use llfree_rs.Base.{
  ℕ, ◌+◌, ◌-◌, ◌≤◌, ◌≡◌, refl, ap, sym, ◌∙◌, Bool, true, false, ge→ltb, returns, bind-returns, ok,
  err, ==_iff, ne→false, ◌≢◌, arith,
}
use llfree_rs.Types.{Res, Init, recover, initialization, Flags}
use llfree_rs.Word.{u64_max}
use llfree_rs.Wrapper.{Alloc, zone, zone_get, zone_put, Meta, magic_number, start_mode, dropped}

module _ {S : Type 0} (a : Alloc S) where
  -- Where the allocator hands out frame `f`, and `f + offset` is a machine word, the zone hands out
  -- `f + offset`, and a free of that
  -- frame in the zone is a free of `f` in the allocator, whatever its outcome.
  pub zone_put-zone_get :
      (core core' f offset : ℕ) (flags : Flags) (s s' t : S) (done : Res (Unit {0}))
      → a.get core flags s ≡ returns (ok f, s')
      → f + offset ≤ u64_max
      → a.put core' f flags s' ≡ returns (done, t)
      → (zone_get a core flags (zone s offset) ≡ returns (ok (f + offset), zone s' offset))
        × (zone_put a core' (f + offset) flags (zone s' offset) ≡ returns (done, zone t offset))
  unfolding zone_get zone_put
  zone_put-zone_get core core' f offset flags s s' t done got fits freed = (
    bind-returns _ got ∙ rw (ge→ltb u64_max (f + offset) fits) refl,
    rw (ge→ltb (f + offset) offset (omega arith))
        (bind-returns _ (ap (λ (x : ℕ). a.put core' x flags s') back ∙ freed)),
  )
    where
      back : f + offset - offset ≡ f
      back = omega arith

-- The page of an allocator for `n` frames.
abbrev page : ℕ → Bool → Meta
page n crashed = record { magic = magic_number; frames = n; crashed = crashed }

restart : (n : ℕ) (c : Bool) → start_mode true n (page n c) ≡ (ok (recover c), page n true)
unfolding start_mode
restart n c = rw ((==_iff n n).1 refl) refl

-- After a fresh start for `n` frames, a start with recovery for `n` frames takes the state of a
-- clean shutdown as it is, and repairs that of a crash, also one of an allocator that was restarted
-- before; for another number of frames it fails.
pub start_mode-restart :
    (n k : ℕ) (m : Meta)
    → k ≢ n
    → ((start_mode true n (dropped (start_mode false n m).1)).0 ≡ ok (recover false))
      × ((start_mode true n (start_mode false n m).1).0 ≡ ok (recover true))
      × ((start_mode true n (start_mode true n (dropped (start_mode false n m).1)).1).0
          ≡ ok (recover true))
      × ((start_mode true k (start_mode false n m).1).0 ≡ err initialization)
unfolding start_mode dropped
start_mode-restart n k m ne = (
  ap (λ r. r.0) (restart n false),
  ap (λ r. r.0) (restart n true),
  ap (λ (r : Res Init × Meta). (start_mode true n r.1).0) (restart n false)
      ∙ ap (λ r. r.0) (restart n true),
  rw (ne→false n k (λ e. ne (sym e))) refl,
)
