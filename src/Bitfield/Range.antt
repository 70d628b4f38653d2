-- ===== src/Bitfield/Range.antt =====
-- `set` of core/src/bitfield.rs: a range of bits is overwritten.
use native.Mathlib.Decide.{ℕ_discrete, dec_lt}
use mathlib.Core.Path.{subst}
use llfree_rs.Base.{
  ℕ, zero, suc, ◌+◌, ◌-◌, ◌*◌, ◌/◌, ◌%◌, ◌^◌, ◌≤◌, ◌<◌, ◌≡◌, refl, ap, sym, ◌∙◌, ◌⊎◌, inl, inr,
  Bool, true, false, bit_or, bit_and, min, length, get_or, length-set, get_or-set_self,
  get_or-set_ne, index-get_or, if◌then◌else◌, le→leb, ==_iff, ne→false, returns, bind-returns,
  arith,
}
use llfree_rs.Base.{set as set_elem}
use llfree_rs.Word.{not64}
use llfree_rs.Word.Bit.{
  bit, bit_of, block, block-lt, bit-split_low, bit-split_high, around, bit-around,
}
use llfree_rs.Word.Block.{
  low, middle, high, low-lt, middle-lt, parts, mask, bit_and-complement, bit_or-mask, around-lt,
}
use llfree_rs.Bitfield.{Bitfield, len, set_entries, set}
use llfree_rs.Bitfield.Bits.{IsWords, bit_at, set-IsWords, get_or-IsWords}

-- The `n` bits from `off` on are `v`, and all others stay.
pub record Sets (off n : ℕ) (v : Bool) (d d' : Bitfield) : Type 0 where
  pub same_length : length d' ≡ length d
  pub words : IsWords d'
  pub after : (j : ℕ) → j < n → bit_at d' (off + j) ≡ bit_of v
  pub outside : (j : ℕ) → (j < off) ⊎ (off + n ≤ j) → bit_at d' j ≡ bit_at d j

-- One word: the block is replaced.
module _ (n s : ℕ) (fits : s + n ≤ 64) (v : Bool) (w : ℕ) (w_lt : w < 2 ^ 64) where
  abbrev written : ℕ
  written = around n s (low s w) (high n s w) (low-lt s w) v

  written-after : (j : ℕ) → j < n → bit written (s + j) ≡ bit_of v
  written-after j lt = bit-around n s (low s w) (high n s w) (low-lt s w) v j lt

  written-outside : (j : ℕ) → (j < s) ⊎ (s + n ≤ j) → bit written j ≡ bit w j
  written-outside j (inl lt) =
      bit-split_low s (low s w) (block v n + 2 ^ n * high n s w) j lt
      ∙ sym (
          ap (λ (x : ℕ). bit x j) (parts n s w)
          ∙ bit-split_low s (low s w) (middle n s w + 2 ^ n * high n s w) j lt)
  written-outside j (inr ge) =
      let at : j ≡ s + (n + (j - s - n)) = omega arith in
      ap (bit written) at
      ∙ bit-split_high s (low s w) (block v n + 2 ^ n * high n s w) (n + (j - s - n)) (low-lt s w)
      ∙ bit-split_high n (block v n) (high n s w) (j - s - n) (block-lt v n)
      ∙ sym (
          ap (bit w) at
          ∙ ap (λ (x : ℕ). bit x (s + (n + (j - s - n)))) (parts n s w)
          ∙ bit-split_high s (low s w) (middle n s w + 2 ^ n * high n s w) (n + (j - s - n))
              (low-lt s w)
          ∙ bit-split_high n (middle n s w) (high n s w) (j - s - n) (middle-lt n s w))

  update-eq : (if v then bit_or w (mask n s) else bit_and w (not64 (mask n s))) ≡ written
  unfolding block
  update-eq = by_value v
    where
      by_value :
          (u : Bool)
          → (if u then bit_or w (mask n s) else bit_and w (not64 (mask n s)))
            ≡ around n s (low s w) (high n s w) (low-lt s w) u
      by_value true = bit_or-mask n s fits w w_lt
      by_value false = bit_and-complement n s fits w w_lt

-- One entry of the bitfield.
module _ (i n s : ℕ) (fits : s + n ≤ 64) (v : Bool) (d : Bitfield) (lt : i < length d)
    (ws : IsWords d) where
  abbrev w : ℕ
  w = get_or d i 0

  abbrev w_lt : w < 2 ^ 64
  w_lt = get_or-IsWords d i ws

  abbrev w' : ℕ
  w' = written n s fits v w w_lt

  entry-Sets : Sets (i * 64 + s) n v d (set_elem d i w')
  unfolding bit_at
  entry-Sets = record {
    same_length = length-set d i w';
    words = set-IsWords d i w' (around-lt n s fits w w_lt v) ws;
    after = λ j k.
        let e : (i * 64 + s + j) / 64 ≡ i = omega arith in
        let r : (i * 64 + s + j) % 64 ≡ s + j = omega arith in
        rw (e, r)
          (ap (λ (t : ℕ). bit t (s + j)) (get_or-set_self 0 d i w' lt)
            ∙ written-after n s fits v w w_lt j k);
    outside = λ j c. outside j c (ℕ_discrete i (j / 64));
  }
    where
      outside :
          (j : ℕ)
          → (j < i * 64 + s) ⊎ (i * 64 + s + n ≤ j)
          → Dec (i ≡ j / 64)
          → bit (get_or (set_elem d i w') (j / 64) 0) (j % 64) ≡ bit (get_or d (j / 64) 0) (j % 64)
      outside j c (no ne) = ap (λ (t : ℕ). bit t (j % 64)) (get_or-set_ne 0 d i (j / 64) w' ne)
      outside j c (yes e) = rw (← e) (
          ap (λ (t : ℕ). bit t (j % 64)) (get_or-set_self 0 d i w' lt)
          ∙ written-outside n s fits v w w_lt (j % 64) (omega arith))

-- Adjacent ranges, or an empty second one.
Sets-trans :
    (off n x m : ℕ) (v : Bool) (a b c : Bitfield)
    → (x ≡ off + n) ⊎ (m ≡ 0)
    → Sets off n v a b
    → Sets x m v b c
    → Sets off (n + m) v a c
Sets-trans off n x m v a b c at p q = record {
  same_length = q.same_length ∙ p.same_length;
  words = q.words;
  after = λ j k. after j k (dec_lt j n) at;
  outside = λ j side. outside j side at;
}
  where
    after :
        (j : ℕ) → j < n + m → Dec (j < n) → (x ≡ off + n) ⊎ (m ≡ 0) → bit_at c (off + j) ≡ bit_of v
    after j k (yes lt) (inl e) = q.outside (off + j) (inl (omega arith)) ∙ p.after j lt
    after j k (yes lt) (inr e) = elim (dec_lt (off + j) x) [
      | yes below ↦ q.outside (off + j) (inl below) ∙ p.after j lt
      | no above ↦ q.outside (off + j) (inr (omega arith)) ∙ p.after j lt
    ]
    after j k (no ge) (inl e) =
        let place : off + j ≡ x + (j - n) = omega arith in
        ap (bit_at c) place ∙ q.after (j - n) (omega arith)
    after j k (no ge) (inr e) = absurd (omega arith)

    outside :
        (j : ℕ)
        → (j < off) ⊎ (off + (n + m) ≤ j)
        → (x ≡ off + n) ⊎ (m ≡ 0)
        → bit_at c j ≡ bit_at a j
    outside j side (inl e) = q.outside j (omega arith) ∙ p.outside j (omega arith)
    outside j side (inr e) = elim (dec_lt j x) [
      | yes below ↦ q.outside j (inl below) ∙ p.outside j (omega arith)
      | no above ↦ q.outside j (inr (omega arith)) ∙ p.outside j (omega arith)
    ]

Sets-nil : (off : ℕ) (v : Bool) (d : Bitfield) → IsWords d → Sets off 0 v d d
Sets-nil off v d ws = record {
  same_length = refl;
  words = ws;
  after = λ j k. absurd (omega arith);
  outside = λ j side. refl;
}

module _ (start end : ℕ) (v : Bool) (lt : start < end) where
  -- Where the range starts, seen from entry `ei` on.
  abbrev from : ℕ → ℕ
  from ei = ei * 64 + (start - ei * 64)

  set_entries-Sets :
      (n ei : ℕ) (d : Bitfield)
      → ei + n ≡ (end - 1) / 64 + 1
      → start / 64 ≤ ei
      → end ≤ len d
      → IsWords d
      → (d' : Bitfield) × (set_entries n ei start end v d ≡ returns d')
        × Sets (from ei) (end - from ei) v d d'
  unfolding set_entries
  set_entries-Sets zero ei d last first fits ws =
      let done : 0 ≡ end - from ei = omega arith in
      (d, refl, subst (λ (n : ℕ). Sets (from ei) n v d d) done (Sets-nil (from ei) v d ws))
  set_entries-Sets (suc n) ei d last first fits ws =
      let s = start - ei * 64 in
      let bits = min (end - ei * 64) 64 - s in
      let room : s + bits ≤ 64 = omega arith in
      let inside : ei < length d = omega arith in
      let c = entry-Sets ei bits s room v d inside ws in
      let d1 = set_elem d ei (w' ei bits s room v d inside ws) in
      let (d', r, rest) =
        set_entries-Sets n (ei + 1) d1 (omega arith) (omega arith) (omega (arith, c.same_length))
          c.words in
      (
        d',
        bind-returns _ (index-get_or 0 d ei inside)
            ∙ rw (update-eq bits s room v (get_or d ei 0) (get_or-IsWords d ei ws)) r,
        subst (λ (k : ℕ). Sets (from ei) k v d d') (omega arith)
            (Sets-trans (from ei) bits (from (ei + 1)) (end - from (ei + 1)) v d d1 d'
              (side n ei last) c rest),
      )
    where
      side :
          (n ei : ℕ)
          → ei + suc n ≡ (end - 1) / 64 + 1
          → (from (ei + 1) ≡ from ei + (min (end - ei * 64) 64 - (start - ei * 64)))
            ⊎ (end - from (ei + 1) ≡ 0)
      side zero ei last = inr (omega arith)
      side (suc n) ei last = inl (omega arith)

-- For a range within the bitfield, `set` overwrites exactly the bits of the range with the value.
pub set-Sets :
    (start end : ℕ) (v : Bool) (d : Bitfield)
    → start ≤ end
    → end ≤ len d
    → IsWords d
    → (d' : Bitfield) × (set start end v d ≡ returns d') × Sets start (end - start) v d d'
unfolding set
set-Sets start end v d le fits ws = elim (ℕ_discrete start end) [
  | yes same ↦
      let none : 0 ≡ end - start = omega arith in
      (
        d,
        rw (le→leb start end le, le→leb end (len d) fits, (==_iff start end).1 same) refl,
        subst (λ (n : ℕ). Sets start n v d d) none (Sets-nil start v d ws),
      )
  | no ne ↦
      let lt : start < end = omega (arith, ne) in
      let at : from start end v lt (start / 64) ≡ start = omega arith in
      let (d', r, c) =
        set_entries-Sets start end v lt ((end - 1) / 64 + 1 - start / 64) (start / 64) d
          (omega arith) (omega arith) fits ws in
      (
        d',
        rw (le→leb start end le, le→leb end (len d) fits, ne→false start end ne) r,
        subst (λ (a : ℕ). Sets a (end - a) v d d') at c,
      )
]
