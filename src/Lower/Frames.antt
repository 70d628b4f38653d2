-- ===== src/Lower/Frames.antt =====
-- The frames that the lower allocator of core/src/lower.rs describes: which are taken, when its
-- entries and bitfields agree, and the change of one huge frame.
use native.Mathlib.Decide.{ℕ_discrete, dec_lt}
use mathlib.Core.Logic.{◌≢◌}
use mathlib.Core.Path.{subst, subst₂, ap₂}
use llfree_rs.Base.{
  ℕ, ◌+◌, ◌-◌, ◌*◌, ◌/◌, ◌%◌, ◌≤◌, ◌<◌, ◌≡◌, refl, ap, sym, ◌∙◌, ◌⊎◌, inl, inr, Bool, not, List, [],
  length, get_or, set, length-set, get_or-set_self, get_or-set_ne, if◌then◌else◌, arith,
}
use llfree_rs.Word.Bit.{bit_of}
use llfree_rs.Bitfield.{Bitfield, count_zeros}
use llfree_rs.Bitfield.Bits.{IsWords, bit_at}
use llfree_rs.Lower.Entry.{HugeEntry, new, huge, u16_max}
use llfree_rs.Lower.Types.{Lower}

-- Entry and bitfield of the huge frame `h`.
abbrev pub entry_at : Lower → ℕ → HugeEntry
entry_at l h = get_or (get_or l.children (h / 8) []) (h % 8) new

abbrev pub field_at : Lower → ℕ → Bitfield
field_at l h = get_or l.bitfields h []

-- Whether frame `j` of a huge frame is allocated.
abbrev pub taken_in : HugeEntry → Bitfield → ℕ → ℕ
taken_in e b j = if huge e then 1 else bit_at b j

unfoldable pub taken : Lower → ℕ → ℕ
taken l f = taken_in (entry_at l (f / 512)) (field_at l (f / 512)) (f % 512)

-- A huge allocation has an empty bitfield; any other entry counts the zeros.
abbrev pub Agrees : HugeEntry → Bitfield → Type 0
Agrees e b = ((e.count ≡ u16_max) × (count_zeros b ≡ 512)) ⊎ (e.count ≡ count_zeros b)

pub record IsField (e : HugeEntry) (b : Bitfield) : Type 0 where
  pub size : length b ≡ 8
  pub words : IsWords b
  pub agrees : Agrees e b

-- Entries without a bitfield, behind the last frame, have no free frame.
pub record IsValid (l : Lower) : Type 0 where
  pub tables : (t : ℕ) → t < length l.children → length (get_or l.children t []) ≡ 8
  pub covered : length l.bitfields ≤ length l.children * 8
  pub fields : (h : ℕ) → h < length l.bitfields → IsField (entry_at l h) (field_at l h)
  pub beyond : (h : ℕ) → length l.bitfields ≤ h → (entry_at l h).count ≡ 0

-- The state with another entry and bitfield for the huge frame `h`.
abbrev pub with_field : ℕ → HugeEntry → Bitfield → Lower → Lower
with_field h e b l = record l {
  bitfields = set l.bitfields h b;
  children = set l.children (h / 8) (set (get_or l.children (h / 8) []) (h % 8) e);
}

module _ (l : Lower) (v : IsValid l) where
  pub entry_at-with_self :
      (h : ℕ) (e : HugeEntry) (b : Bitfield)
      → h / 8 < length l.children
      → entry_at (with_field h e b l) h ≡ e
  entry_at-with_self h e b lt =
      ap (λ (t : List HugeEntry). get_or t (h % 8) new)
        (get_or-set_self [] l.children (h / 8) (set (get_or l.children (h / 8) []) (h % 8) e) lt)
      ∙ get_or-set_self new (get_or l.children (h / 8) []) (h % 8) e
          (omega (arith, v.tables (h / 8) lt))

pub entry_at-with_ne :
    (l : Lower) (h k : ℕ) (e : HugeEntry) (b : Bitfield)
    → h / 8 < length l.children
    → h ≢ k
    → entry_at (with_field h e b l) k ≡ entry_at l k
entry_at-with_ne l h k e b lt ne = elim (ℕ_discrete (h / 8) (k / 8)) [
  | no other ↦
      ap (λ (t : List HugeEntry). get_or t (k % 8) new)
        (get_or-set_ne [] l.children (h / 8) (k / 8) table other)
  | yes same ↦
      ap (λ (x : ℕ). get_or (get_or (set l.children (h / 8) table) x []) (k % 8) new) (sym same)
      ∙ ap (λ (t : List HugeEntry). get_or t (k % 8) new)
          (get_or-set_self [] l.children (h / 8) table lt)
      ∙ get_or-set_ne new (get_or l.children (h / 8) []) (h % 8) (k % 8) e
          (λ r. ne (omega (arith, same, r)))
      ∙ ap (λ (x : ℕ). get_or (get_or l.children x []) (k % 8) new) same
]
  where
    table : List HugeEntry
    table = set (get_or l.children (h / 8) []) (h % 8) e

pub field_at-with_ne :
    (l : Lower) (h k : ℕ) (e : HugeEntry) (b : Bitfield)
    → h ≢ k
    → field_at (with_field h e b l) k ≡ field_at l k
field_at-with_ne l h k e b ne = get_or-set_ne [] l.bitfields h k b ne

-- A change that keeps entry and bitfield in agreement keeps the whole state valid.
pub with_field-IsValid :
    (l : Lower) (v : IsValid l) (h : ℕ) (e : HugeEntry) (b : Bitfield)
    → h < length l.bitfields
    → IsField e b
    → IsValid (with_field h e b l)
with_field-IsValid l v h e b lt f = record {
  tables = λ t k. tables t k (ℕ_discrete (h / 8) t);
  covered =
      omega (arith, length-set l.bitfields h b, length-set l.children (h / 8) table, v.covered);
  fields = λ k k_lt. fields k k_lt (ℕ_discrete h k);
  beyond = λ k ge. beyond k ge (ℕ_discrete h k);
}
  where
    table : List HugeEntry
    table = set (get_or l.children (h / 8) []) (h % 8) e

    in_range : h / 8 < length l.children
    in_range = omega (arith, v.covered)

    tables :
        (t : ℕ)
        → t < length (set l.children (h / 8) table)
        → Dec (h / 8 ≡ t)
        → length (get_or (set l.children (h / 8) table) t []) ≡ 8
    tables t k (no ne) =
        ap length (get_or-set_ne [] l.children (h / 8) t table ne)
        ∙ v.tables t (omega (arith, length-set l.children (h / 8) table))
    tables t k (yes same) =
        ap (λ (x : ℕ). length (get_or (set l.children (h / 8) table) x [])) (sym same)
        ∙ ap length (get_or-set_self [] l.children (h / 8) table in_range)
        ∙ length-set (get_or l.children (h / 8) []) (h % 8) e
        ∙ v.tables (h / 8) in_range

    fields :
        (k : ℕ)
        → k < length (set l.bitfields h b)
        → Dec (h ≡ k)
        → IsField (entry_at (with_field h e b l) k) (field_at (with_field h e b l) k)
    fields k k_lt (no ne) =
        subst₂ IsField (sym (entry_at-with_ne l h k e b in_range ne))
          (sym (field_at-with_ne l h k e b ne))
          (v.fields k (omega (arith, length-set l.bitfields h b)))
    fields k k_lt (yes same) =
        subst (λ x. IsField (entry_at (with_field h e b l) x) (field_at (with_field h e b l) x))
          same
          (subst₂ IsField (sym (entry_at-with_self l v h e b in_range))
            (sym (get_or-set_self [] l.bitfields h b lt)) f)

    beyond :
        (k : ℕ)
        → length (set l.bitfields h b) ≤ k
        → Dec (h ≡ k)
        → (entry_at (with_field h e b l) k).count ≡ 0
    beyond k ge (yes same) = absurd (omega (arith, length-set l.bitfields h b))
    beyond k ge (no ne) =
        ap (λ (x : HugeEntry). x.count) (entry_at-with_ne l h k e b in_range ne)
        ∙ v.beyond k (omega (arith, length-set l.bitfields h b))

-- The frames from `off` on, `n` of them, turn from free to allocated (`v` is `true`) or back, and
-- the entries of all other huge frames stay.
pub record Changes (off n : ℕ) (v : Bool) (l l' : Lower) : Type 0 where
  pub valid : IsValid l'
  pub same_length : length l'.bitfields ≡ length l.bitfields
  pub same_range : l'.len ≡ l.len
  pub before : (j : ℕ) → j < n → taken l (off + j) ≡ bit_of (not v)
  pub after : (j : ℕ) → j < n → taken l' (off + j) ≡ bit_of v
  pub outside : (f : ℕ) → (f < off) ⊎ (off + n ≤ f) → taken l' f ≡ taken l f
  pub entries :
      (k : ℕ)
      → k ≢ off / 512
      → (k * 512 + 512 ≤ off) ⊎ (off + n ≤ k * 512)
      → entry_at l' k ≡ entry_at l k

-- The same for the frames of one huge frame.
pub record FieldChanges (s n : ℕ) (v : Bool) (e : HugeEntry) (b : Bitfield) (e' : HugeEntry)
    (b' : Bitfield) : Type 0 where
  pub before : (j : ℕ) → j < n → taken_in e b (s + j) ≡ bit_of (not v)
  pub after : (j : ℕ) → j < n → taken_in e' b' (s + j) ≡ bit_of v
  pub outside : (j : ℕ) → j < 512 → (j < s) ⊎ (s + n ≤ j) → taken_in e' b' j ≡ taken_in e b j

pub with_field-Changes :
    (l : Lower) (v : IsValid l) (h s n : ℕ) (w : Bool) (e : HugeEntry) (b : Bitfield)
    → h < length l.bitfields
    → s + n ≤ 512
    → s < 512
    → IsField e b
    → FieldChanges s n w (entry_at l h) (field_at l h) e b
    → Changes (h * 512 + s) n w l (with_field h e b l)
unfolding taken
with_field-Changes l v h s n w e b lt fits s_lt f c = record {
  valid = with_field-IsValid l v h e b lt f;
  same_length = length-set l.bitfields h b;
  same_range = refl;
  before = λ j k. here l j k ∙ c.before j k;
  after = λ j k. here (with_field h e b l) j k ∙ new_at (s + j) ∙ c.after j k;
  outside = λ x side. outside x side (ℕ_discrete h (x / 512));
  entries = λ k ne side.
      entry_at-with_ne l h k e b (omega (arith, v.covered)) (λ same. ne (omega (arith, same)));
}
  where
    l' : Lower
    l' = with_field h e b l

    here :
        (m : Lower) (j : ℕ)
        → j < n
        → taken_in
            (entry_at m ((h * 512 + s + j) / 512))
            (field_at m ((h * 512 + s + j) / 512))
            ((h * 512 + s + j) % 512)
          ≡ taken_in (entry_at m h) (field_at m h) (s + j)
    here m j k =
        let d : (h * 512 + s + j) / 512 ≡ h = omega arith in
        let r : (h * 512 + s + j) % 512 ≡ s + j = omega arith in
        ap₂ (λ (x y : ℕ). taken_in (entry_at m x) (field_at m x) y) d r

    new_at : (j : ℕ) → taken_in (entry_at l' h) (field_at l' h) j ≡ taken_in e b j
    new_at j =
        ap₂ (λ (x : HugeEntry) (y : Bitfield). taken_in x y j)
          (entry_at-with_self l v h e b (omega (arith, v.covered)))
          (get_or-set_self [] l.bitfields h b lt)

    outside :
        (x : ℕ)
        → (x < h * 512 + s) ⊎ (h * 512 + s + n ≤ x)
        → Dec (h ≡ x / 512)
        → taken_in (entry_at l' (x / 512)) (field_at l' (x / 512)) (x % 512)
          ≡ taken_in (entry_at l (x / 512)) (field_at l (x / 512)) (x % 512)
    outside x side (no ne) =
        ap₂ (λ (y : HugeEntry) (z : Bitfield). taken_in y z (x % 512))
          (entry_at-with_ne l h (x / 512) e b (omega (arith, v.covered)) ne)
          (field_at-with_ne l h (x / 512) e b ne)
    outside x side (yes same) =
        ap (λ (y : ℕ). taken_in (entry_at l' y) (field_at l' y) (x % 512)) (sym same)
        ∙ new_at (x % 512)
        ∙ c.outside (x % 512) (omega arith) (omega (arith, same))
        ∙ ap (λ (y : ℕ). taken_in (entry_at l y) (field_at l y) (x % 512)) same

-- Two changes of adjacent frames.
pub Changes-trans :
    (off n m : ℕ) (v : Bool) (a b c : Lower)
    → 0 < m
    → Changes off n v a b
    → Changes (off + n) m v b c
    → Changes off (n + m) v a c
Changes-trans off n m v a b c pos p q = record {
  valid = q.valid;
  same_length = q.same_length ∙ p.same_length;
  same_range = q.same_range ∙ p.same_range;
  before = λ j k. before j k (dec_lt j n);
  after = λ j k. after j k (dec_lt j n);
  outside = λ f side. q.outside f (omega arith) ∙ p.outside f (omega arith);
  entries =
      λ k ne side. q.entries k (λ e. omega (arith, e)) (omega arith) ∙ p.entries k ne (omega arith);
}
  where
    before : (j : ℕ) → j < n + m → Dec (j < n) → taken a (off + j) ≡ bit_of (not v)
    before j k (yes lt) = p.before j lt
    before j k (no ge) =
        let e : off + j ≡ off + n + (j - n) = omega arith in
        sym (p.outside (off + j) (inr (omega arith)))
        ∙ ap (taken b) e
        ∙ q.before (j - n) (omega arith)

    after : (j : ℕ) → j < n + m → Dec (j < n) → taken c (off + j) ≡ bit_of v
    after j k (yes lt) = q.outside (off + j) (inl (omega arith)) ∙ p.after j lt
    after j k (no ge) =
        let e : off + j ≡ off + n + (j - n) = omega arith in
        ap (taken c) e ∙ q.after (j - n) (omega arith)
