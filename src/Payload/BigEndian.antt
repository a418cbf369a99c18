-- ===== src/Payload/BigEndian.antt =====
-- `binary.BigEndian` of the Go library, as payload/payload.go uses it: `PutUintN` writes the
-- bytes of a number, `UintN` reads them and panics on a slice that is too short.
use native.Mathlib.Nat.{
  pow-succ', one-le-pow, mod-eq_of_lt, div-eq_of_lt-le, div-add-mod, mul-add-mod_self_left,
}
use kubezonnet.Prelude.{
  ℕ, zero, suc, ◌+◌, ◌*◌, ◌/◌, ◌%◌, ◌^◌, ◌≤◌, ◌<◌, List, [], ◌∷◌, ◌++◌, ◌≡◌, refl, leb,
  if◌then◌else◌, length, take, Outcome, ok, panic, u8, IsByte, arith, ap, ap₂, ◌∙◌, All,
}

-- The `k` low bytes of `v`.
abbrev pub be_bytes : ℕ → ℕ → List ℕ
be_bytes zero v = []
be_bytes (suc k) v = u8 (v / 256 ^ k) ∷ be_bytes k v

-- The number that follows `acc` with the bytes `bs`.
abbrev pub be_value : ℕ → List ℕ → ℕ
be_value acc [] = acc
be_value acc (b ∷ bs) = be_value (acc * 256 + b) bs

-- `Uint16`, `Uint32` and `Uint64` are `k` = 2, 4 and 8.
abbrev pub read : {E : Type 0} → ℕ → List ℕ → Outcome E ℕ
read k b = if leb k (length b) then ok (be_value 0 (take k b)) else panic

pub length-be_bytes : (k v : ℕ) → length (be_bytes k v) ≡ k
length-be_bytes zero v = refl
length-be_bytes (suc k) v = ap suc (length-be_bytes k v)

byte-lt : (q r p : ℕ) → r < p → q % 256 * p + r < 256 * p
byte-lt q r p h = grind arith

next_byte : (v p : ℕ) → 0 < p → v % (256 * p) ≡ v / p % 256 * p + v % p
next_byte v p h =
    ap (λ t. t % (256 * p)) regroup
    ∙ mul-add-mod_self_left (256 * p) (v / p / 256) (v / p % 256 * p + v % p)
    ∙ mod-eq_of_lt (byte-lt (v / p) (v % p) p (omega arith))
  where
    regroup : v ≡ 256 * p * (v / p / 256) + (v / p % 256 * p + v % p)
    regroup = omega (arith, div-add-mod v p, ap (λ (t : ℕ). t * p) (div-add-mod (v / p) 256))

-- Reading what was written gives the number back, as far as the bytes reach.
be_value-be_bytes_after : (k acc v : ℕ) → be_value acc (be_bytes k v) ≡ acc * 256 ^ k + v % 256 ^ k
be_value-be_bytes_after zero acc v = omega arith
be_value-be_bytes_after (suc k) acc v = omega (
  arith,
  be_value-be_bytes_after k (acc * 256 + u8 (v / 256 ^ k)) v,
  next_byte v (256 ^ k) (one-le-pow k 256 (omega arith)),
  ap (λ (t : ℕ). v % t) (pow-succ' 256 k),
  ap (λ (t : ℕ). acc * t) (pow-succ' 256 k),
)

pub be_value-be_bytes : (k v : ℕ) → v < 256 ^ k → be_value 0 (be_bytes k v) ≡ v
be_value-be_bytes k v h = omega (arith, be_value-be_bytes_after k 0 v, mod-eq_of_lt h)

byte-mul-le : (b p : ℕ) → b < 256 → (b + 1) * p ≤ 256 * p
byte-mul-le b p h = grind arith

-- The value of some bytes after `acc`.
pub be_value_bounds :
    (acc : ℕ) (bs : List ℕ)
    → All IsByte bs
    → (acc * 256 ^ length bs ≤ be_value acc bs) × (be_value acc bs < (acc + 1) * 256 ^ length bs)
be_value_bounds acc [] h = omega arith
be_value_bounds acc (b ∷ bs) h = omega (
  arith,
  be_value_bounds (acc * 256 + b) bs h.1,
  ap (λ (t : ℕ). acc * t) (pow-succ' 256 (length bs)),
  pow-succ' 256 (length bs),
  byte-mul-le b (256 ^ length bs) h.0,
)

-- Writing what was read gives the bytes back.
pub be_bytes-be_value :
    (acc : ℕ) (bs : List ℕ) → All IsByte bs → be_bytes (length bs) (be_value acc bs) ≡ bs
be_bytes-be_value acc [] h = refl
be_bytes-be_value acc (b ∷ bs) h =
    let bounds = be_value_bounds (acc * 256 + b) bs h.1 in
    ap₂ ◌∷◌ (omega (arith, div-eq_of_lt-le (256 ^ length bs) bounds.0 bounds.1))
      (be_bytes-be_value (acc * 256 + b) bs h.1)

pub be_value-append :
    (acc : ℕ) (xs ys : List ℕ) → be_value acc (xs ++ ys) ≡ be_value (be_value acc xs) ys
be_value-append acc [] ys = refl
be_value-append acc (x ∷ xs) ys = be_value-append (acc * 256 + x) xs ys
