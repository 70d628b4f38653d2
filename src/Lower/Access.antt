-- ===== src/Lower/Access.antt =====
-- Reads and writes of the state of core/src/lower.rs within bounds, and writes that follow each
-- other.
use mathlib.Core.Path.{subst, ap₂}
use llfree_rs.Base.{
  ℕ, ◌/◌, ◌%◌, ◌<◌, ◌≡◌, refl, ap, sym, ◌∙◌, List, [], length, get_or, set, length-set,
  get_or-set_self, set-get_or, set-set, Run, returns, index, index-get_or, ◌>>=◌, arith,
}
use llfree_rs.Bitfield.{Bitfield}
use llfree_rs.Lower.Entry.{HugeEntry, new}
use llfree_rs.Lower.Types.{Lower, Table, child_index, load_entry, store_entry, store_bitfield}
use llfree_rs.Lower.Frames.{entry_at, field_at, with_field, IsValid}

-- The huge frame has a table entry.
abbrev pub InTable : ℕ → Lower → Type 0
InTable h l = (h / 8 < length l.children) × (h % 8 < length (get_or l.children (h / 8) []))

pub valid-InTable : (h : ℕ) (l : Lower) → IsValid l → h / 8 < length l.children → InTable h l
valid-InTable h l v lt = (lt, omega (arith, v.tables (h / 8) lt))

pub load_entry-eq :
    (h : ℕ) (l : Lower) → InTable h l → load_entry (h / 8) (h % 8) l ≡ returns (entry_at l h)
load_entry-eq h l (lt, in_table) =
    ap (λ (r : Run Table). r >>= λ t. index t (h % 8)) (index-get_or [] l.children (h / 8) lt)
    ∙ index-get_or new (get_or l.children (h / 8) []) (h % 8) in_table

pub load_frame-eq :
    (frame : ℕ) (l : Lower)
    → IsValid l
    → frame / 512 < length l.bitfields
    → load_entry (frame / 4096) (child_index frame) l ≡ returns (entry_at l (frame / 512))
load_frame-eq frame l v inside =
    let table : frame / 512 / 8 ≡ frame / 4096 = omega arith in
    ap (λ (t : ℕ). load_entry t (child_index frame) l) (sym table)
    ∙ load_entry-eq (frame / 512) l (valid-InTable (frame / 512) l v (omega (arith, v.covered)))

abbrev table_with : ℕ → HugeEntry → Lower → Table
table_with h e l = set (get_or l.children (h / 8) []) (h % 8) e

abbrev state : Lower → List Bitfield → List Table → Lower
state l bs ts = record l { bitfields = bs; children = ts }

pub store_entry-eq :
    (h : ℕ) (e : HugeEntry) (l : Lower)
    → InTable h l
    → store_entry (h / 8) (h % 8) e l ≡ returns (with_field h e (field_at l h) l)
store_entry-eq h e l (lt, _) =
    ap
      (λ (r : Run Table).
        r >>= λ t. returns (state l l.bitfields (set l.children (h / 8) (set t (h % 8) e))))
      (index-get_or [] l.children (h / 8) lt)
    ∙ ap (λ (bs : List Bitfield). returns (state l bs (set l.children (h / 8) (table_with h e l))))
        (sym (set-get_or [] l.bitfields h))

pub index_field-eq :
    (h : ℕ) (l : Lower) → h < length l.bitfields → index l.bitfields h ≡ returns (field_at l h)
index_field-eq h l lt = index-get_or [] l.bitfields h lt

pub index_field-with_field :
    (h : ℕ) (e : HugeEntry) (b : Bitfield) (l : Lower)
    → h < length l.bitfields
    → index (with_field h e b l).bitfields h ≡ returns b
index_field-with_field h e b l lt =
    index-get_or [] (set l.bitfields h b) h (omega (arith, length-set l.bitfields h b))
    ∙ ap (λ (x : Bitfield). returns x) (get_or-set_self [] l.bitfields h b lt)

pub field_at-with_self :
    (h : ℕ) (e : HugeEntry) (b : Bitfield) (l : Lower)
    → h < length l.bitfields
    → field_at (with_field h e b l) h ≡ b
field_at-with_self h e b l lt = get_or-set_self [] l.bitfields h b lt

pub store_bitfield-with_field :
    (h : ℕ) (e : HugeEntry) (b c : Bitfield) (l : Lower)
    → store_bitfield h c (with_field h e b l) ≡ with_field h e c l
store_bitfield-with_field h e b c l =
    ap (λ (bs : List Bitfield). state l bs (set l.children (h / 8) (table_with h e l)))
      (set-set l.bitfields h b c)

-- The second of two writes wins.
pub with_field-with_field :
    (h : ℕ) (e e' : HugeEntry) (b b' : Bitfield) (l : Lower)
    → InTable h l
    → with_field h e' b' (with_field h e b l) ≡ with_field h e' b' l
with_field-with_field h e e' b b' l (lt, in_table) = ap₂ (state l) (set-set l.bitfields h b b') (
    ap (λ (t : Table). set (set l.children (h / 8) (table_with h e l)) (h / 8) (set t (h % 8) e'))
      (get_or-set_self [] l.children (h / 8) (table_with h e l) lt)
    ∙ set-set l.children (h / 8) (table_with h e l) (set (table_with h e l) (h % 8) e')
    ∙ ap (set l.children (h / 8)) (set-set (get_or l.children (h / 8) []) (h % 8) e e'))

-- A write of what is there changes nothing.
pub with_field-same : (h : ℕ) (l : Lower) → with_field h (entry_at l h) (field_at l h) l ≡ l
with_field-same h l = ap₂ (state l) (set-get_or [] l.bitfields h) (
    ap (set l.children (h / 8)) (set-get_or new (get_or l.children (h / 8) []) (h % 8))
    ∙ set-get_or [] l.children (h / 8))

pub with_field-InTable_near :
    (h k : ℕ) (e : HugeEntry) (b : Bitfield) (l : Lower)
    → h / 8 ≡ k / 8
    → h / 8 < length l.children
    → k % 8 < length (get_or l.children (h / 8) [])
    → InTable k (with_field h e b l)
with_field-InTable_near h k e b l same lt in_table = (
  omega (arith, length-set l.children (h / 8) (table_with h e l)),
  subst (λ (x : ℕ). k % 8 < length (get_or (set l.children (h / 8) (table_with h e l)) x [])) same
      (subst (λ (t : Table). k % 8 < length t)
        (sym (get_or-set_self [] l.children (h / 8) (table_with h e l) lt))
        (omega (arith, length-set (get_or l.children (h / 8) []) (h % 8) e))),
)

pub with_field-InTable :
    (h : ℕ) (e : HugeEntry) (b : Bitfield) (l : Lower)
    → InTable h l
    → InTable h (with_field h e b l)
with_field-InTable h e b l (lt, in_table) = with_field-InTable_near h h e b l refl lt in_table

-- A bitfield and then its entry are written.
pub store_entry-store_bitfield :
    (h : ℕ) (e : HugeEntry) (b : Bitfield) (l : Lower)
    → InTable h l
    → store_entry (h / 8) (h % 8) e (store_bitfield h b l) ≡ returns (with_field h e b l)
store_entry-store_bitfield h e b l in_table =
    store_entry-eq h e (store_bitfield h b l) in_table
    ∙ ap (λ (bs : List Bitfield). returns (state l bs (set l.children (h / 8) (table_with h e l))))
        (set-get_or [] (set l.bitfields h b) h)

pub store_bitfield-same : (h : ℕ) (l : Lower) → store_bitfield h (field_at l h) l ≡ l
store_bitfield-same h l =
    ap (λ (bs : List Bitfield). state l bs l.children) (set-get_or [] l.bitfields h)
