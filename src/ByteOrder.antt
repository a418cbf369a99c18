-- ===== src/ByteOrder.antt =====
-- byteorder/byte_order.go: the two conversions between host and network byte order.
pub mod Laws
use kubezonnet.Prelude.{ℕ, bit_and, bit_or, u32, ◌<<<◌, ◌>>>◌}

-- `x << k` on a uint32 drops the bits that leave the word.
unfoldable pub htonl : ℕ → ℕ
htonl x =
    bit_or
      (bit_or (bit_or (u32 (x <<< 24)) (bit_and (u32 (x <<< 8)) 0x00FF0000))
        (bit_and (x >>> 8) 0x0000FF00))
      (x >>> 24)

unfoldable pub ntohl : ℕ → ℕ
ntohl x =
    bit_or
      (bit_or (bit_or (u32 (x <<< 24)) (bit_and (u32 (x <<< 8)) 0x00FF0000))
        (bit_and (x >>> 8) 0x0000FF00))
      (x >>> 24)
