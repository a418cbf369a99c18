-- ===== src/Agent/Layout/Sized.antt =====
-- C types of which the scalars have sizes of the machine: their alignment, and that fields come one
-- behind the other.
use native.Mathlib.Nat.{div-add-mod, mul_assoc, mul_comm, mod-lt, mul-div_cancel_left}
use kubezonnet.Prelude.{
  ℕ, ◌+◌, ◌-◌, ◌*◌, ◌/◌, ◌≤◌, ◌<◌, ◌≡◌, refl, ap, sym, ◌∙◌, Bool, true, ◌&&◌, ◌||◌, leb, ◌==◌,
  arith,
}
use kubezonnet.Dict.{string_keys}
use kubezonnet.Agent.Layout.{
  CType, signed, unsigned, pointer, enumeration, array, struct_of, union_of, Field, field, bits,
  inline, padding, Fields, end, ◌◂◌, round_up, bits_start, align_of, align_field, align_fields,
  size_of, width_of, start_of, fields_end, fields_width,
}

-- The sizes of scalars.
abbrev pub is_size : ℕ → Bool
is_size n = n == 1 || n == 2 || n == 4 || n == 8

-- Scalars have the sizes of the machine's, and bit-fields fit a scalar.
unfoldable mutual
  pub is_sized : CType → Bool
  is_sized (signed n) = is_size n
  is_sized (unsigned n) = is_size n
  is_sized (pointer to) = true
  is_sized (enumeration name) = true
  is_sized (array t n) = is_sized t
  is_sized (struct_of fs) = are_sized fs
  is_sized (union_of fs) = are_sized fs

  pub is_sized_field : Field → Bool
  is_sized_field (field name t) = is_sized t
  is_sized_field (bits name t w) = is_sized t && is_size (size_of t) && leb w (8 * size_of t)
  is_sized_field (inline t) = is_sized t
  is_sized_field (padding t w) = is_sized t && is_size (size_of t) && leb w (8 * size_of t)

  pub are_sized : Fields → Bool
  are_sized end = true
  are_sized (f ◂ fs) = is_sized_field f && are_sized fs

-- An alignment is the size of a scalar.
mutual
  unfolding align_of is_sized

  pub align_of-is_size : (t : CType) → is_sized t ≡ true → is_size (align_of t) ≡ true
  align_of-is_size (signed n) h = h
  align_of-is_size (unsigned n) h = h
  align_of-is_size (pointer to) h = refl
  align_of-is_size (enumeration name) h = refl
  align_of-is_size (array t n) h = align_of-is_size t h
  align_of-is_size (struct_of fs) h = align_fields-is_size fs h
  align_of-is_size (union_of fs) h = align_fields-is_size fs h

  align_field-is_size : (f : Field) → is_sized_field f ≡ true → is_size (align_field f) ≡ true
  align_field-is_size (field name t) h = align_of-is_size t h
  align_field-is_size (bits name t w) h = align_of-is_size t (ground arith)
  align_field-is_size (inline t) h = align_of-is_size t h
  align_field-is_size (padding t w) h = refl

  pub align_fields-is_size : (fs : Fields) → are_sized fs ≡ true → is_size (align_fields fs) ≡ true
  align_fields-is_size end h = refl
  align_fields-is_size (f ◂ fs) h =
      let here = align_field-is_size f (ground arith) in
      let rest = align_fields-is_size fs (ground arith) in ground arith

pub is_size-pos : (a : ℕ) → is_size a ≡ true → 0 < a
is_size-pos a h = ground arith

pub le-round_up : (o a : ℕ) → 0 < a → o ≤ round_up o a
le-round_up o a h = omega (arith, div-add-mod (o + (a - 1)) a, mod-lt (o + (a - 1)) h)

pub le-bits_start : (size w o : ℕ) → is_size size ≡ true → o ≤ bits_start size w o
le-bits_start size w o h =
    let up = le-round_up o (8 * size) (omega (arith, is_size-pos size h)) in ground arith

-- A field starts where the one before it ends, or later.
pub le-start_of : (f : Field) (o : ℕ) → is_sized_field f ≡ true → o ≤ start_of f o
unfolding size_of is_sized
le-start_of (field name t) o h =
    le-round_up o (8 * align_of t) (omega (arith, is_size-pos (align_of t) (align_of-is_size t h)))
le-start_of (bits name t w) o h = le-bits_start (size_of t) w o (ground arith)
le-start_of (inline t) o h =
    le-round_up o (8 * align_of t) (omega (arith, is_size-pos (align_of t) (align_of-is_size t h)))
le-start_of (padding t w) o h = le-bits_start (size_of t) w o (ground arith)

pub le-fields_end : (fs : Fields) (o : ℕ) → are_sized fs ≡ true → o ≤ fields_end fs o
unfolding size_of is_sized
le-fields_end end o h = omega arith
le-fields_end (f ◂ fs) o h = omega (
  arith,
  le-start_of f o (ground arith),
  le-fields_end fs (start_of f o + width_of f) (ground arith),
)

-- A multiple of `8 * a` bits is a multiple of `a` bytes.
pub round_up-bytes : (e a : ℕ) → round_up e (8 * a) / 8 ≡ (e + (8 * a - 1)) / (8 * a) * a
round_up-bytes e a =
    let q = (e + (8 * a - 1)) / (8 * a) in
    rw (← mul_assoc q 8 a, mul_comm q 8, mul_assoc 8 q a)
      (mul-div_cancel_left (q * a) (omega arith))

-- The size of a struct or a union holds all of its bits.
le-size : (e a : ℕ) → 0 < a → e ≤ 8 * (round_up e (8 * a) / 8)
le-size e a h =
    let q = (e + (8 * a - 1)) / (8 * a) in
    let bits : round_up e (8 * a) ≡ 8 * (q * a) =
      sym (mul_assoc q 8 a) ∙ ap (λ n. n * a) (mul_comm q 8) ∙ mul_assoc 8 q a in
    omega (arith, le-round_up e (8 * a) (omega arith), round_up-bytes e a, bits)

pub le-struct : (fs : Fields) → are_sized fs ≡ true → fields_end fs 0 ≤ 8 * size_of (struct_of fs)
unfolding size_of
le-struct fs h =
    le-size (fields_end fs 0) (align_fields fs)
      (is_size-pos (align_fields fs) (align_fields-is_size fs h))

pub le-union : (fs : Fields) → are_sized fs ≡ true → fields_width fs ≤ 8 * size_of (union_of fs)
unfolding size_of
le-union fs h =
    le-size (fields_width fs) (align_fields fs)
      (is_size-pos (align_fields fs) (align_fields-is_size fs h))
