-- ===== src/Agent/Layout/Inside.antt =====
-- Where the members of a C type lie: inside the object, one behind the other.
use native.Mathlib.Nat.{div-add-mod, mul-mod_left, mul-mod_right, mul_assoc}
use kubezonnet.Prelude.{
  ℕ, ◌+◌, ◌-◌, ◌*◌, ◌/◌, ◌%◌, ◌≤◌, ◌≡◌, refl, ap, subst, ◌∙◌, String, Option, none, some, Bool,
  true, false, if◌then◌else◌, arith,
}
use kubezonnet.Dict.{same, string_keys}
use kubezonnet.Agent.Layout.{
  CType, signed, unsigned, pointer, enumeration, array, struct_of, union_of, Field, field, bits,
  inline, padding, Fields, end, ◌◂◌, round_up, align_of, align_fields, size_of, width_of, start_of,
  fields_end, fields_width, Slot, shift, or_else, member_of, member_field, member_struct,
  member_union,
}
use kubezonnet.Agent.Layout.Sized.{
  is_size, is_sized, is_sized_field, are_sized, align_of-is_size, le-start_of, le-fields_end,
  round_up-bytes, le-struct, le-union,
}

-- A member that was found within `first` and `last`.
abbrev IsWithin : ℕ → Option Slot → ℕ → Type 0
IsWithin first none last = Unit
IsWithin first (some s) last = (first ≤ s.first) × (s.first + s.width ≤ last)

IsWithin-or_else :
    (a b : Option Slot) (first last : ℕ)
    → IsWithin first a last
    → IsWithin first b last
    → IsWithin first (or_else a b) last
IsWithin-or_else none b first last p q = q
IsWithin-or_else (some s) b first last p q = p

IsWithin-shift :
    (a : Option Slot) (o last : ℕ) → IsWithin 0 a last → IsWithin o (shift o a) (o + last)
IsWithin-shift none o last p = tt
IsWithin-shift (some s) o last p = omega (arith, p)

IsWithin-le :
    (a : Option Slot) (first last first' last' : ℕ)
    → first' ≤ first
    → last ≤ last'
    → IsWithin first a last
    → IsWithin first' a last'
IsWithin-le none first last first' last' p q h = tt
IsWithin-le (some s) first last first' last' p q h = omega (arith, h)

IsWithin-found :
    (b : Bool) (o w last : ℕ)
    → o + w ≤ last
    → IsWithin o (if b then some (record { first = o; width = w }) else none) last
IsWithin-found true o w last h = (omega arith, h)
IsWithin-found false o w last h = tt

mutual
  unfolding member_of is_sized

  member_of-IsWithin :
      (t : CType) (name : String)
      → is_sized t ≡ true
      → IsWithin 0 (member_of t name) (8 * size_of t)
  member_of-IsWithin (signed n) name h = tt
  member_of-IsWithin (unsigned n) name h = tt
  member_of-IsWithin (pointer to) name h = tt
  member_of-IsWithin (enumeration e) name h = tt
  member_of-IsWithin (array t n) name h = tt
  member_of-IsWithin (struct_of fs) name h =
      IsWithin-le (member_struct fs 0 name) 0 (fields_end fs 0) 0 (8 * size_of (struct_of fs))
        (omega arith) (le-struct fs h) (member_struct-IsWithin fs 0 name h)
  member_of-IsWithin (union_of fs) name h =
      IsWithin-le (member_union fs name) 0 (fields_width fs) 0 (8 * size_of (union_of fs))
        (omega arith) (le-union fs h) (member_union-IsWithin fs name h)

  member_field-IsWithin :
      (f : Field) (o : ℕ) (name : String)
      → is_sized_field f ≡ true
      → IsWithin o (member_field f o name) (o + width_of f)
  member_field-IsWithin (field n t) o name h =
      IsWithin-found (same n name) o (8 * size_of t) (o + 8 * size_of t) (omega arith)
  member_field-IsWithin (bits n t w) o name h =
      IsWithin-found (same n name) o w (o + w) (omega arith)
  member_field-IsWithin (inline t) o name h =
      IsWithin-shift (member_of t name) o (8 * size_of t) (member_of-IsWithin t name h)
  member_field-IsWithin (padding t w) o name h = tt

  member_struct-IsWithin :
      (fs : Fields) (o : ℕ) (name : String)
      → are_sized fs ≡ true
      → IsWithin o (member_struct fs o name) (fields_end fs o)
  member_struct-IsWithin end o name h = tt
  member_struct-IsWithin (f ◂ fs) o name h =
      let starts = start_of f o in
      let ends = starts + width_of f in
      let later = le-start_of f o (ground arith) in
      let rest = le-fields_end fs ends (ground arith) in
      IsWithin-or_else (member_field f starts name) (member_struct fs ends name) o
        (fields_end fs ends)
        (IsWithin-le (member_field f starts name) starts ends o (fields_end fs ends) later rest
          (member_field-IsWithin f starts name (ground arith)))
        (IsWithin-le (member_struct fs ends name) ends (fields_end fs ends) o (fields_end fs ends)
          (omega (arith, later)) (omega arith) (member_struct-IsWithin fs ends name (ground arith)))

  member_union-IsWithin :
      (fs : Fields) (name : String)
      → are_sized fs ≡ true
      → IsWithin 0 (member_union fs name) (fields_width fs)
  member_union-IsWithin end name h = tt
  member_union-IsWithin (f ◂ fs) name h =
      IsWithin-or_else (member_field f 0 name) (member_union fs name) 0 (fields_width (f ◂ fs))
        (IsWithin-le (member_field f 0 name) 0 (0 + width_of f) 0 (fields_width (f ◂ fs))
          (omega arith) (omega arith) (member_field-IsWithin f 0 name (ground arith)))
        (IsWithin-le (member_union fs name) 0 (fields_width fs) 0 (fields_width (f ◂ fs))
          (omega arith) (omega arith) (member_union-IsWithin fs name (ground arith)))

-- A member of a type, of which the scalars have sizes of the machine and the bit-fields fit theirs,
-- lies inside the object, also one that is reached through members without a name.
pub member_of-inside :
    (t : CType) (name : String) (s : Slot)
    → is_sized t ≡ true
    → member_of t name ≡ some s
    → s.first + s.width ≤ 8 * size_of t
member_of-inside t name s h e =
    (subst (λ a. IsWithin 0 a (8 * size_of t)) e (member_of-IsWithin t name h)).1

multiple-mul : (s n a : ℕ) → s % a ≡ 0 → s * n % a ≡ 0
multiple-mul s n a h =
    let whole : s ≡ a * (s / a) = omega (arith, div-add-mod s a) in
    ap (λ m. m * n % a) whole
    ∙ ap (λ m. m % a) (mul_assoc a (s / a) n)
    ∙ mul-mod_right a (s / a * n)

multiple-round_up : (e a : ℕ) → round_up e (8 * a) / 8 % a ≡ 0
multiple-round_up e a =
    ap (λ m. m % a) (round_up-bytes e a) ∙ mul-mod_left ((e + (8 * a - 1)) / (8 * a)) a

size_of-multiple : (t : CType) → is_sized t ≡ true → size_of t % align_of t ≡ 0
unfolding size_of is_sized
size_of-multiple (signed n) h = ground arith
size_of-multiple (unsigned n) h = ground arith
size_of-multiple (pointer to) h = refl
size_of-multiple (enumeration name) h = refl
size_of-multiple (array t n) h = multiple-mul (size_of t) n (align_of t) (size_of-multiple t h)
size_of-multiple (struct_of fs) h = multiple-round_up (fields_end fs 0) (align_fields fs)
size_of-multiple (union_of fs) h = multiple-round_up (fields_width fs) (align_fields fs)

-- The size of such a type is a multiple of its alignment, and this is 1, 2, 4 or 8: in an array each
-- element is aligned as well as the first.
pub size_of-aligned :
    (t : CType) → is_sized t ≡ true → (is_size (align_of t) ≡ true) × (size_of t % align_of t ≡ 0)
size_of-aligned t h = (align_of-is_size t h, size_of-multiple t h)
