-- ===== src/Agent/Layout.antt =====
-- The C types of agent/vmlinux.h and of agent/kubezonnet.c, and how a compiler for a 64-bit
-- little-endian machine lays them out: the rules of the System V ABI, which clang follows for the
-- eBPF target, with eight-byte pointers.
pub mod Sized
pub mod Inside
pub mod Reads
pub mod Apart
use kubezonnet.Prelude.{
  ℕ, zero, suc, ◌+◌, ◌-◌, ◌*◌, ◌/◌, ◌%◌, ◌^◌, max, String, List, [], ◌∷◌, Option, none, some, Bool,
  leb, if◌then◌else◌, map,
}
use kubezonnet.Dict.{same, string_keys}

infixr 20 ◌◂◌
-- A pointer keeps the text of what it points to, an enumeration its name. `bits` is a bit-field,
-- `inline` a struct or union without a name, of which the members count as its parent's, `padding`
-- a bit-field without a name.
mutual
  pub data CType : Type 0 where
    signed unsigned : ℕ → CType
    pointer enumeration : String → CType
    array : CType → ℕ → CType
    struct_of union_of : Fields → CType

  pub data Field : Type 0 where
    field : String → CType → Field
    bits : String → CType → ℕ → Field
    inline : CType → Field
    padding : CType → ℕ → Field

  pub data Fields : Type 0 where
    end : Fields
    ◌◂◌ : Field → Fields → Fields

-- The next multiple of `a`.
abbrev pub round_up : ℕ → ℕ → ℕ
round_up o a = (o + (a - 1)) / a * a

-- Alignments, in bytes.
unfoldable mutual
  pub align_of : CType → ℕ
  align_of (signed n) = n
  align_of (unsigned n) = n
  align_of (pointer to) = 8
  align_of (enumeration name) = 4
  align_of (array t n) = align_of t
  align_of (struct_of fs) = align_fields fs
  align_of (union_of fs) = align_fields fs

  pub align_field : Field → ℕ
  align_field (field name t) = align_of t
  align_field (bits name t w) = align_of t
  align_field (inline t) = align_of t
  align_field (padding t w) = 1

  pub align_fields : Fields → ℕ
  align_fields end = 1
  align_fields (f ◂ fs) = max (align_field f) (align_fields fs)

-- Where a field of `w` bits starts that comes after bit `o`: a bit-field goes on in the storage unit
-- of `8 * size` bits that it is in, if it fits.
abbrev pub bits_start : ℕ → ℕ → ℕ → ℕ
bits_start size w o = if leb (o % (8 * size) + w) (8 * size) then o else round_up o (8 * size)

-- Sizes, in bytes, and the width and the start of a field, in bits. `fields_end` is the bit behind
-- the last field of a struct, `fields_width` the width of the widest field of a union.
unfoldable mutual
  unfolding align_of

  pub size_of : CType → ℕ
  size_of (signed n) = n
  size_of (unsigned n) = n
  size_of (pointer to) = 8
  size_of (enumeration name) = 4
  size_of (array t n) = size_of t * n
  size_of (struct_of fs) = round_up (fields_end fs 0) (8 * align_fields fs) / 8
  size_of (union_of fs) = round_up (fields_width fs) (8 * align_fields fs) / 8

  pub width_of : Field → ℕ
  width_of (field name t) = 8 * size_of t
  width_of (bits name t w) = w
  width_of (inline t) = 8 * size_of t
  width_of (padding t w) = w

  pub start_of : Field → ℕ → ℕ
  start_of (field name t) o = round_up o (8 * align_of t)
  start_of (bits name t w) o = bits_start (size_of t) w o
  start_of (inline t) o = round_up o (8 * align_of t)
  start_of (padding t w) o = bits_start (size_of t) w o

  pub fields_end : Fields → ℕ → ℕ
  fields_end end o = o
  fields_end (f ◂ fs) o = fields_end fs (start_of f o + width_of f)

  pub fields_width : Fields → ℕ
  fields_width end = 0
  fields_width (f ◂ fs) = max (width_of f) (fields_width fs)

-- A member in its object: its first bit, and how many it has.
pub record Slot : Type 0 where
  pub first : ℕ
  pub width : ℕ

abbrev pub shift : ℕ → Option Slot → Option Slot
shift o none = none
shift o (some s) = some (record { first = o + s.first; width = s.width })

abbrev pub or_else : Option Slot → Option Slot → Option Slot
or_else none b = b
or_else (some s) b = some s

-- `x.name`: the member of that name, also inside members without a name.
unfoldable mutual
  unfolding size_of

  pub member_of : CType → String → Option Slot
  member_of (signed n) name = none
  member_of (unsigned n) name = none
  member_of (pointer to) name = none
  member_of (enumeration e) name = none
  member_of (array t n) name = none
  member_of (struct_of fs) name = member_struct fs 0 name
  member_of (union_of fs) name = member_union fs name

  pub member_field : Field → ℕ → String → Option Slot
  member_field (field n t) o name =
      if same n name then some (record { first = o; width = 8 * size_of t }) else none
  member_field (bits n t w) o name =
      if same n name then some (record { first = o; width = w }) else none
  member_field (inline t) o name = shift o (member_of t name)
  member_field (padding t w) o name = none

  pub member_struct : Fields → ℕ → String → Option Slot
  member_struct end o name = none
  member_struct (f ◂ fs) o name =
      or_else (member_field f (start_of f o) name)
        (member_struct fs (start_of f o + width_of f) name)

  pub member_union : Fields → String → Option Slot
  member_union end name = none
  member_union (f ◂ fs) name = or_else (member_field f 0 name) (member_union fs name)
