-- ===== src/ByteOrder/Laws.antt =====
-- What byteorder/byte_order.go does to the four bytes of a word.
use kubezonnet.Prelude.{
  ℕ, ◌+◌, ◌*◌, ◌/◌, ◌%◌, ◌^◌, ◌<◌, bit_and, ◌≡◌, ◌∙◌, arith, u8, u32, word, IsByte, sym, ◌<<<◌,
  ◌>>>◌,
}
use kubezonnet.Bits.{and_split, bit_and_ones, bit_and-zero, bit_or_four, bit_and-word, bit_and-le}
use kubezonnet.ByteOrder.{htonl, ntohl}

-- A mask over one byte of a word.
and_byte_two : (x : ℕ) → x < 2 ^ 32 → bit_and x 0x00FF0000 ≡ x / 2 ^ 16 % 256 * 2 ^ 16
and_byte_two x h =
    omega (arith, and_split 16 x 0x00FF0000, bit_and_ones 8 (x / 2 ^ 16), bit_and-zero (x % 2 ^ 16))

and_byte_one : (x : ℕ) → x < 2 ^ 32 → bit_and x 0x0000FF00 ≡ x / 2 ^ 8 % 256 * 2 ^ 8
and_byte_one x h =
    omega (arith, and_split 8 x 0x0000FF00, bit_and_ones 8 (x / 2 ^ 8), bit_and-zero (x % 2 ^ 8))

-- The value of four bytes, the last given first.
abbrev pub swapped : ℕ → ℕ
swapped x =
    x % 2 ^ 8 * 2 ^ 24 + x / 2 ^ 8 % 2 ^ 8 * 2 ^ 16 + x / 2 ^ 16 % 2 ^ 8 * 2 ^ 8 + x / 2 ^ 24

pub htonl-eq-swapped : (x : ℕ) → x < 2 ^ 32 → htonl x ≡ swapped x
unfolding htonl
htonl-eq-swapped x h =
    rw (and_byte_two (u32 (x <<< 8)) (omega arith), and_byte_one (x >>> 8) (omega arith))
      (bit_or_four (u32 (x <<< 24)) (u32 (x <<< 8) / 2 ^ 16 % 256 * 2 ^ 16)
          (x >>> 8 / 2 ^ 8 % 256 * 2 ^ 8) (x >>> 24) (omega arith) (omega arith) (omega arith)
          (omega arith) (omega arith) (omega arith)
        ∙ omega arith)

pub ntohl-eq-swapped : (x : ℕ) → x < 2 ^ 32 → ntohl x ≡ swapped x
unfolding htonl ntohl
ntohl-eq-swapped = htonl-eq-swapped

swapped-lt : (x : ℕ) → x < 2 ^ 32 → swapped x < 2 ^ 32
swapped-lt x h = omega arith

swapped-swapped : (x : ℕ) → x < 2 ^ 32 → swapped (swapped x) ≡ x
swapped-swapped x h = omega arith

pub htonl-lt : (x : ℕ) → x < 2 ^ 32 → htonl x < 2 ^ 32
htonl-lt x h = rw (htonl-eq-swapped x h) (swapped-lt x h)

pub ntohl-lt : (x : ℕ) → x < 2 ^ 32 → ntohl x < 2 ^ 32
ntohl-lt x h = rw (ntohl-eq-swapped x h) (swapped-lt x h)

-- On 32-bit words each conversion undoes the other.
pub ntohl-htonl : (x : ℕ) → x < 2 ^ 32 → (ntohl (htonl x) ≡ x) × (htonl (ntohl x) ≡ x)
ntohl-htonl x h = (
  rw (htonl-eq-swapped x h, ntohl-eq-swapped (swapped x) (swapped-lt x h)) (swapped-swapped x h),
  rw (ntohl-eq-swapped x h, htonl-eq-swapped (swapped x) (swapped-lt x h)) (swapped-swapped x h),
)

pub htonl-word :
    (a b c d : ℕ) → IsByte a × IsByte b × IsByte c × IsByte d → htonl (word a b c d) ≡ word d c b a
htonl-word a b c d h = htonl-eq-swapped (word a b c d) (omega arith) ∙ omega arith

pub ntohl-word :
    (a b c d : ℕ) → IsByte a × IsByte b × IsByte c × IsByte d → ntohl (word a b c d) ≡ word d c b a
unfolding htonl ntohl
ntohl-word = htonl-word

word-IsByte : (x : ℕ) → x < 2 ^ 32 → x ≡ word (x >>> 24) (u8 (x >>> 16)) (u8 (x >>> 8)) (u8 x)
word-IsByte x h = omega arith

-- The mask, on words given by their bytes.
and_swapped :
    (a b c d a' b' c' d' : ℕ)
    → IsByte a × IsByte b × IsByte c × IsByte d
    → IsByte a' × IsByte b' × IsByte c' × IsByte d'
    → bit_and (htonl (word a b c d)) (htonl (word a' b' c' d'))
      ≡ htonl (bit_and (word a b c d) (word a' b' c' d'))
and_swapped a b c d a' b' c' d' h h' =
    rw
      (
        htonl-word a b c d h,
        htonl-word a' b' c' d' h',
        bit_and-word d c b a d' c' b' a' (h.2, h.1, h.0) (h'.2, h'.1, h'.0),
        bit_and-word a b c d a' b' c' d' (h.1, h.2, h.3) (h'.1, h'.2, h'.3),
      )
      (sym (
        htonl-word (bit_and a a') (bit_and b b') (bit_and c c') (bit_and d d')
          (omega (arith, bit_and-le a a', bit_and-le b b', bit_and-le c c', bit_and-le d d'))))

-- A mask commutes with the exchange of the bytes: a test of masked words in network order is the
-- test in host order.
pub bit_and-htonl :
    (x m : ℕ) → x < 2 ^ 32 → m < 2 ^ 32 → bit_and (htonl x) (htonl m) ≡ htonl (bit_and x m)
bit_and-htonl x m hx hm =
    rw (word-IsByte x hx, word-IsByte m hm)
      (and_swapped (x >>> 24) (u8 (x >>> 16)) (u8 (x >>> 8)) (u8 x) (m >>> 24) (u8 (m >>> 16))
        (u8 (m >>> 8)) (u8 m) (omega arith) (omega arith))
