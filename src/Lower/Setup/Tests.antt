-- ===== src/Lower/Setup/Tests.antt =====
-- `new` for 1000 frames, which end within the second huge frame.
use llfree_rs.Base.{ℕ, zero, suc, ◌<◌, ◌≡◌, refl, [], ◌∷◌, length, get_or, replicate, arith}
use llfree_rs.Types.{free_all}
use llfree_rs.Bitfield.Bits.{IsWords}
use llfree_rs.Lower.Entry.{new_free}
use llfree_rs.Lower.Sample.{clear, clear-IsField}
use llfree_rs.Lower.Setup.{Primary, metadata_size, new}
use llfree_rs.Lower.Setup.Free.{IsCut}
use llfree_rs.Lower.Setup.Start.{view, Started, new-Started}

abbrev buffer : Primary
buffer = record {
  address = 0x4000;
  bytes = 192;
  bitfields = replicate 2 clear;
  children = replicate 8 (new_free 9) ∷ [];
}

buffer-IsCut : IsCut (view 1000 buffer)
buffer-IsCut = record {
  some_frame = omega arith;
  tables = refl;
  table_sizes = tables;
  bitfields = refl;
  fields = record { sizes = sizes; words = words };
}
  where
    tables : (t : ℕ) → t < 1 → length (get_or buffer.children t []) ≡ 8
    tables zero lt = refl
    tables (suc t) lt = absurd (omega arith)

    sizes : (h : ℕ) → h < 2 → length (get_or buffer.bitfields h []) ≡ 8
    sizes zero lt = refl
    sizes (suc zero) lt = refl
    sizes (suc (suc h)) lt = absurd (omega arith)

    words : (h : ℕ) → h < 2 → IsWords (get_or buffer.bitfields h [])
    words zero lt = clear-IsField.words
    words (suc zero) lt = clear-IsField.words
    words (suc (suc h)) lt = absurd (omega arith)

new-Started_example : Started (view 1000 buffer) free_all (new 1000 free_all buffer)
unfolding metadata_size
new-Started_example = new-Started 1000 free_all buffer buffer-IsCut (omega arith) refl (λ e. cc)
