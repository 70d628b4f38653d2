-- ===== src/Bitfield/Tests.antt =====
-- The unit tests of core/src/bitfield.rs that pin the model to the code.
use llfree_rs.Base.{
  inr, ◌≡◌, ◌+◌, ◌-◌, ◌*◌, ◌^◌, ◌⊎◌, refl, true, false, none, some, [], ◌∷◌, returns, ok, err,
  arith,
}
use llfree_rs.Word.Bit.{around-Flips}
use llfree_rs.Word
use llfree_rs.Bitfield.{count_zeros}
use llfree_rs.Bitfield.Bits.{count_zeros-Flips, set-Flips}
use llfree_rs.Bitfield.Search.{Found, NoBlock}
use llfree_rs.Bitfield.Search.Entries.{set_first_zeros-Found}
use llfree_rs.Bitfield.FirstZeros.Reference.{reference, first_zeros_aligned-reference}
use llfree_rs.Bitfield.Toggle.{Toggled}
use llfree_rs.Bitfield.Toggle.Entries.{toggle-Toggled}
use llfree_rs.Bitfield.FirstZeros.{first_zeros_aligned}
use llfree_rs.Bitfield.{Bitfield, set, toggle, set_first_zeros, is_zero}
use llfree_rs.Bitfield.Range.{Sets, set-Sets}
use llfree_rs.Bitfield.Zero.{Answers, is_zero-Answers}
use llfree_rs.Types.{memory, retry}

fza_pair : first_zeros_aligned 0b10011 1 ≡ returns (some (0b11111, 2))
unfolding first_zeros_aligned
fza_pair = refl

fza_nibble :
    first_zeros_aligned 0b1111_0000_1100_0011_1000_1111 2
    ≡ returns (some (0b1111_1111_1100_0011_1000_1111, 16))
unfolding first_zeros_aligned
fza_nibble = refl

fza_byte : first_zeros_aligned 0x00ff_ffff_ffff_ffff 3 ≡ returns (some (0xffff_ffff_ffff_ffff, 56))
unfolding first_zeros_aligned
fza_byte = refl

fza_full : first_zeros_aligned 0x0001_ffff_ffff_ffff 4 ≡ returns none
unfolding first_zeros_aligned
fza_full = refl

set_across :
    set 60 73 true (0x00ff_ffff_ffff_ffff ∷ 0 ∷ []) ≡ returns (0xf0ff_ffff_ffff_ffff ∷ 0x01ff ∷ [])
unfolding set
set_across = refl

toggle_byte : toggle 8 3 false (0 ∷ 0 ∷ []) ≡ returns (ok tt, 0xff00 ∷ 0 ∷ [])
unfolding toggle
toggle_byte = refl

toggle_nibble : toggle 16 2 false (0xff00 ∷ 0 ∷ []) ≡ returns (ok tt, 0xfff00 ∷ 0 ∷ [])
unfolding toggle
toggle_nibble = refl

toggle_taken : toggle 8 3 false (0xfff00 ∷ 0 ∷ []) ≡ returns (err retry, 0xfff00 ∷ 0 ∷ [])
unfolding toggle
toggle_taken = refl

search_pair :
    set_first_zeros 0 7 (0 ∷ 0 ∷ 1 ∷ 0 ∷ [])
    ≡ returns (ok 0, 0xffff_ffff_ffff_ffff ∷ 0xffff_ffff_ffff_ffff ∷ 1 ∷ 0 ∷ [])
unfolding set_first_zeros
search_pair = refl

search_from : set_first_zeros 1 6 (0 ∷ 1 ∷ []) ≡ returns (ok 0, 0xffff_ffff_ffff_ffff ∷ 1 ∷ [])
unfolding set_first_zeros
search_from = refl

search_fails : set_first_zeros 0 8 (0 ∷ 0 ∷ 1 ∷ 0 ∷ []) ≡ returns (err memory, 0 ∷ 0 ∷ 1 ∷ 0 ∷ [])
unfolding set_first_zeros
search_fails = refl

toggle-Toggled_example :
    Toggled 128 (2 ^ 7) false (0 ∷ 0 ∷ 0 ∷ 1 ∷ []) (toggle 128 7 false (0 ∷ 0 ∷ 0 ∷ 1 ∷ []))
toggle-Toggled_example =
    toggle-Toggled 128 7 false (0 ∷ 0 ∷ 0 ∷ 1 ∷ []) (omega arith) (omega arith)
      (omega arith, (omega arith, (omega arith, (omega arith, tt))))

set_first_zeros-Found_example :
    Found 7 (0x7fff ∷ 1 ∷ 0 ∷ 0 ∷ []) (set_first_zeros 1 7 (0x7fff ∷ 1 ∷ 0 ∷ 0 ∷ []))
    ⊎ ((set_first_zeros 1 7 (0x7fff ∷ 1 ∷ 0 ∷ 0 ∷ [])
          ≡ returns (err memory, 0x7fff ∷ 1 ∷ 0 ∷ 0 ∷ []))
        × NoBlock 7 (0x7fff ∷ 1 ∷ 0 ∷ 0 ∷ []))
set_first_zeros-Found_example =
    set_first_zeros-Found 1 7 (0x7fff ∷ 1 ∷ 0 ∷ 0 ∷ []) (inr refl)
      (omega arith, (omega arith, (omega arith, (omega arith, tt)))) (omega arith)

first_zeros_aligned-reference_example :
    first_zeros_aligned 0xf0ff 2 ≡ returns (reference (2 ^ 2) (2 ^ (6 - 2)) 0xf0ff)
first_zeros_aligned-reference_example =
    first_zeros_aligned-reference 2 0xf0ff (omega arith) (omega arith)

first_bit : Word.Bit.Flips 0 1 true 0 1
unfolding Word.Bit.block
first_bit = around-Flips 1 0 0 0 (omega arith) true

count_zeros-Flips_example : count_zeros (1 ∷ []) + 1 * 1 ≡ count_zeros (0 ∷ []) + 1 * 0
count_zeros-Flips_example =
    count_zeros-Flips 0 1 true (0 ∷ []) (1 ∷ []) (omega arith)
      (set-Flips (0 ∷ []) 0 0 1 1 true (omega arith) (omega arith) (omega arith) first_bit)

set-Sets_example :
    (d' : Bitfield) × (set 60 73 true (0 ∷ 7 ∷ []) ≡ returns d') × Sets 60 13 true (0 ∷ 7 ∷ []) d'
set-Sets_example =
    set-Sets 60 73 true (0 ∷ 7 ∷ []) (omega arith) (omega arith) (omega arith, (omega arith, tt))

is_zero-Answers_example : Answers 16 (2 ^ 4) (0xffff ∷ 1 ∷ []) (is_zero 16 4 (0xffff ∷ 1 ∷ []))
is_zero-Answers_example =
    is_zero-Answers 16 4 (0xffff ∷ 1 ∷ []) refl (omega arith) (omega arith, (omega arith, tt))
