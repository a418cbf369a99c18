-- ===== src/Bits.antt =====
-- `&` and `|` of machine words as arithmetic: both split at any bit position.
use Prim.Native.Nat.{digits, bitwise, bit_and-bitwise, bit_or-bitwise}
use native.Mathlib.Nat.{
  div-one, mod-one, div-eq_of_lt, mod-eq_of_lt, mul-mod_left, mul-div_cancel, div-add-mod,
  pow-succ', one-le-pow, le_refl, div-div-eq-div-mul,
}
use kubezonnet.Prelude.{
  ℕ, zero, suc, ◌+◌, ◌-◌, ◌*◌, ◌/◌, ◌%◌, ◌^◌, ◌≤◌, ◌<◌, min, max, bit_and, bit_or, ◌≡◌, refl, sym,
  ap, ap₂, ◌∙◌, arith, word, IsByte,
}

-- A bit operation of the native numbers is `bitwise`, which recurs on fuel. More fuel than bits
-- changes nothing.
module _ (z : ℕ → ℕ) (f : ℕ → ℕ → ℕ) where
  digits_enough :
      (fuel more a b : ℕ) → a ≤ fuel → a ≤ more → digits z f fuel a b ≡ digits z f more a b
  digits_enough zero zero a b p q = refl
  digits_enough zero (suc more) zero b p q = refl
  digits_enough zero (suc more) (suc a) b p q = absurd (omega arith)
  digits_enough (suc fuel) zero zero b p q = refl
  digits_enough (suc fuel) zero (suc a) b p q = absurd (omega arith)
  digits_enough (suc fuel) (suc more) zero b p q = refl
  digits_enough (suc fuel) (suc more) (suc a) b p q =
      rw (digits_enough fuel more (suc a / 2) (b / 2) (omega arith) (omega arith))

  lowest_digit :
      (a b : ℕ)
      → bitwise z f (suc a) b ≡ bitwise z f (suc a / 2) (b / 2) * 2 + f (suc a % 2) (b % 2)
  lowest_digit a b =
      omega (arith, digits_enough a (suc a / 2) (suc a / 2) (b / 2) (omega arith) (le_refl _))

and_lowest : (a b : ℕ) → bit_and a b ≡ bit_and (a / 2) (b / 2) * 2 + min (a % 2) (b % 2)
and_lowest zero b = simp bit_and-bitwise (omega arith)
and_lowest (suc a) b = simp bit_and-bitwise (lowest_digit (λ y. 0) min a b)

or_lowest : (a b : ℕ) → bit_or a b ≡ bit_or (a / 2) (b / 2) * 2 + max (a % 2) (b % 2)
or_lowest zero b = simp bit_or-bitwise (omega arith)
or_lowest (suc a) b = simp bit_or-bitwise (lowest_digit (λ y. y) max a b)

-- The quotient and the remainder by `2 * p`, one binary digit at a time.
div_half : (a p : ℕ) → a / (2 * p) ≡ a / 2 / p
div_half a p = sym (div-div-eq-div-mul a 2 p)

mod_half : (a p : ℕ) → 0 < p → a % (2 * p) ≡ a / 2 % p * 2 + a % 2
mod_half a p h = grind arith

half-mod : (a p : ℕ) → 0 < p → a % (2 * p) / 2 ≡ a / 2 % p
half-mod a p h = omega (arith, mod_half a p h)

parity-mod : (a p : ℕ) → 0 < p → a % (2 * p) % 2 ≡ a % 2
parity-mod a p h = omega (arith, mod_half a p h)

half_ones : (p : ℕ) → 0 < p → (2 * p - 1) / 2 ≡ p - 1
half_ones p h = omega arith

-- An operation with a law for the lowest digit splits at every bit position.
module _ (op g : ℕ → ℕ → ℕ)
    (lowest : (a b : ℕ) → op a b ≡ op (a / 2) (b / 2) * 2 + g (a % 2) (b % 2))
    (zeros : op 0 0 ≡ 0) where
  remainders :
      (p a b : ℕ)
      → 0 < p
      → op (a % (2 * p)) (b % (2 * p)) ≡ op (a / 2 % p) (b / 2 % p) * 2 + g (a % 2) (b % 2)
  remainders p a b h = rw (
    lowest (a % (2 * p)) (b % (2 * p)),
    half-mod a p h,
    half-mod b p h,
    parity-mod a p h,
    parity-mod b p h,
  )

  split_at_two :
      (p a b : ℕ)
      → 0 < p
      → op (a / 2) (b / 2) ≡ op (a / 2 / p) (b / 2 / p) * p + op (a / 2 % p) (b / 2 % p)
      → op a b ≡ op (a / (2 * p)) (b / (2 * p)) * (2 * p) + op (a % (2 * p)) (b % (2 * p))
  split_at_two p a b h ih =
      rw (div_half a p, div_half b p) (omega (arith, lowest a b, remainders p a b h, ih))

  split : (k a b : ℕ) → op a b ≡ op (a / 2 ^ k) (b / 2 ^ k) * 2 ^ k + op (a % 2 ^ k) (b % 2 ^ k)
  split zero a b = rw (div-one, div-one, mod-one, mod-one, zeros) (omega arith)
  split (suc k) a b =
      rw pow-succ'
        (split_at_two (2 ^ k) a b (one-le-pow k 2 (omega arith)) (split k (a / 2) (b / 2)))

pub and_split :
    (k a b : ℕ)
    → bit_and a b ≡ bit_and (a / 2 ^ k) (b / 2 ^ k) * 2 ^ k + bit_and (a % 2 ^ k) (b % 2 ^ k)
and_split = split bit_and min and_lowest refl

pub or_split :
    (k a b : ℕ)
    → bit_or a b ≡ bit_or (a / 2 ^ k) (b / 2 ^ k) * 2 ^ k + bit_or (a % 2 ^ k) (b % 2 ^ k)
or_split = split bit_or max or_lowest refl

-- With nothing on one side.
pub zero-bit_and : (b : ℕ) → bit_and 0 b ≡ 0
zero-bit_and b = bit_and-bitwise 0 b

pub zero-bit_or : (b : ℕ) → bit_or 0 b ≡ b
zero-bit_or b = bit_or-bitwise 0 b

bit_and-zero_below : (n a : ℕ) → a ≤ n → bit_and a 0 ≡ 0
bit_and-zero_below n zero h = refl
bit_and-zero_below zero (suc a) h = absurd (omega arith)
bit_and-zero_below (suc n) (suc a) h =
    omega (arith, and_lowest (suc a) 0, bit_and-zero_below n (suc a / 2) (omega arith))

pub bit_and-zero : (a : ℕ) → bit_and a 0 ≡ 0
bit_and-zero a = bit_and-zero_below a a (le_refl a)

bit_or-zero_below : (n a : ℕ) → a ≤ n → bit_or a 0 ≡ a
bit_or-zero_below n zero h = refl
bit_or-zero_below zero (suc a) h = absurd (omega arith)
bit_or-zero_below (suc n) (suc a) h =
    omega (arith, or_lowest (suc a) 0, bit_or-zero_below n (suc a / 2) (omega arith))

pub bit_or-zero : (a : ℕ) → bit_or a 0 ≡ a
bit_or-zero a = bit_or-zero_below a a (le_refl a)

-- A mask of `k` ones.
pub bit_and_ones : (k a : ℕ) → bit_and a (2 ^ k - 1) ≡ a % 2 ^ k
bit_and_ones zero a = rw (bit_and-zero, mod-one)
bit_and_ones (suc k) a = rw pow-succ' (
    omega (
      arith,
      and_lowest a (2 * 2 ^ k - 1),
      ap (λ (t : ℕ). bit_and (a / 2) t) (half_ones (2 ^ k) (one-le-pow k 2 (omega arith))),
      bit_and_ones k (a / 2),
      one-le-pow k 2 (omega arith),
      mod_half a (2 ^ k) (one-le-pow k 2 (omega arith)),
    ))

-- `|` of disjoint fields is their sum.
pub bit_or_fields : (k q r : ℕ) → r < 2 ^ k → bit_or (q * 2 ^ k) r ≡ q * 2 ^ k + r
bit_or_fields k q r h = rw (
  or_split k (q * 2 ^ k) r,
  high,
  div-eq_of_lt h,
  mul-mod_left,
  mod-eq_of_lt h,
  bit_or-zero,
  zero-bit_or,
)
  where
    high : q * 2 ^ k / 2 ^ k ≡ q
    high = mul-div_cancel q (one-le-pow k 2 (omega arith))

pub bit_or_disjoint : (k a b : ℕ) → a % 2 ^ k ≡ 0 → b < 2 ^ k → bit_or a b ≡ a + b
bit_or_disjoint k a b e h =
    let whole : a ≡ a / 2 ^ k * 2 ^ k = omega (arith, e, div-add-mod a (2 ^ k)) in
    ap (λ t. bit_or t b) whole ∙ bit_or_fields k (a / 2 ^ k) b h ∙ ap (λ t. t + b) (sym whole)

-- `&` gives no more than its left side.
bit_and-le_below : (n a b : ℕ) → a ≤ n → bit_and a b ≤ a
bit_and-le_below n zero b h = omega (arith, zero-bit_and b)
bit_and-le_below zero (suc a) b h = absurd (omega arith)
bit_and-le_below (suc n) (suc a) b h =
    omega (arith, and_lowest (suc a) b, bit_and-le_below n (suc a / 2) (b / 2) (omega arith))

pub bit_and-le : (a b : ℕ) → bit_and a b ≤ a
bit_and-le a b = bit_and-le_below a a b (le_refl a)

-- `&` of two words, byte by byte.
and_last_byte :
    (q r a b : ℕ)
    → a < 2 ^ 8
    → b < 2 ^ 8
    → bit_and (q * 2 ^ 8 + a) (r * 2 ^ 8 + b) ≡ bit_and q r * 2 ^ 8 + bit_and a b
and_last_byte q r a b ha hb =
    and_split 8 (q * 2 ^ 8 + a) (r * 2 ^ 8 + b)
    ∙ ap₂ ◌+◌ (ap₂ (λ s t. bit_and s t * 2 ^ 8) (omega arith) (omega arith))
        (ap₂ bit_and (omega arith) (omega arith))

pub bit_and-word :
    (a b c d a' b' c' d' : ℕ)
    → IsByte b × IsByte c × IsByte d
    → IsByte b' × IsByte c' × IsByte d'
    → bit_and (word a b c d) (word a' b' c' d')
      ≡ word (bit_and a a') (bit_and b b') (bit_and c c') (bit_and d d')
bit_and-word a b c d a' b' c' d' h h' =
    ap₂ bit_and (regroup a b c d) (regroup a' b' c' d')
    ∙ omega (
      arith,
      and_last_byte ((a * 2 ^ 8 + b) * 2 ^ 8 + c) ((a' * 2 ^ 8 + b') * 2 ^ 8 + c') d d' h.2 h'.2,
      and_last_byte (a * 2 ^ 8 + b) (a' * 2 ^ 8 + b') c c' h.1 h'.1,
      and_last_byte a a' b b' h.0 h'.0,
    )
  where
    regroup : (a b c d : ℕ) → word a b c d ≡ ((a * 2 ^ 8 + b) * 2 ^ 8 + c) * 2 ^ 8 + d
    regroup a b c d = omega arith

-- `|` of four fields that lie in bytes of their own.
pub bit_or_four :
    (a b c d : ℕ)
    → a % 2 ^ 24 ≡ 0
    → b < 2 ^ 24
    → b % 2 ^ 16 ≡ 0
    → c < 2 ^ 16
    → c % 2 ^ 8 ≡ 0
    → d < 2 ^ 8
    → bit_or (bit_or (bit_or a b) c) d ≡ a + b + c + d
bit_or_four a b c d ha hb hb' hc hc' hd =
    rw (bit_or_disjoint 24 a b, ha, hb)
      (rw (bit_or_disjoint 16 (a + b) c (omega arith) hc)
        (bit_or_disjoint 8 (a + b + c) d (omega arith) hd))
