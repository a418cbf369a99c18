-- ===== src/Agent/Address.antt =====
-- The conversions of agent/agent.go: an address to a number, and a mask to a number.
use kubezonnet.Prelude.{
  ℕ, ◌+◌, ◌-◌, ◌*◌, ◌<◌, ◌≡◌, refl, ap, ◌∙◌, List, [], ◌∷◌, ◌++◌, none, some, leb, if◌then◌else◌,
  bit_or, Outcome, ok, panic, ◌>>=◌, u32, ◌<<<◌, word, IsByte, All, arith, All-append_right,
}
use kubezonnet.Bits.{bit_or_disjoint, bit_or_four, zero-bit_or}
use kubezonnet.Payload.BigEndian.{be_value, be_value-append}
use kubezonnet.Net.{Ip, Quad, to4, decimal, ip_string, split_dots, atoi}
use kubezonnet.Net.Laws.{IsQuad, atoi-decimal, split_dots-ip_string}

-- `strconv.Atoi` with the panic of its caller.
unfoldable pub part_number : List ℕ → Outcome ⊥ ℕ
part_number part = elim (atoi part) [ none ↦ panic | some num ↦ ok num ]

-- The loop at index `i`; `uint32(num) << (24 - 8*i)` panics on a negative count.
unfoldable pub add_parts : List (List ℕ) → ℕ → ℕ → Outcome ⊥ ℕ
add_parts [] i result = ok result
add_parts (part ∷ parts) i result = do
  num ← part_number part
  if leb (8 * i) 24
      then add_parts parts (i + 1) (bit_or result (u32 (u32 num <<< (24 - 8 * i))))
      else panic

unfoldable pub ip_to_uint32 : (Ip → List ℕ) → Ip → Outcome ⊥ ℕ
ip_to_uint32 v6_text ip = add_parts (split_dots (ip_string v6_text ip)) 0 0

unfoldable pub mask_from : ℕ → List ℕ → ℕ
mask_from result [] = result
mask_from result (byte_value ∷ mask) = mask_from (bit_or (u32 (result <<< 8)) byte_value) mask

unfoldable pub mask_to_uint32 : List ℕ → ℕ
unfolding mask_from
mask_to_uint32 mask = mask_from 0 mask

part_number-decimal : (n : ℕ) → n < 256 → part_number (decimal n) ≡ ok n
unfolding part_number
part_number-decimal n h = rw (part_number, atoi-decimal n h)

four_parts :
    (q : Quad)
    → IsQuad q
    → add_parts (decimal q.a ∷ decimal q.b ∷ decimal q.c ∷ decimal q.d ∷ []) 0 0
      ≡ ok (word q.a q.b q.c q.d)
unfolding add_parts
four_parts q h =
    rw
      (
        part_number-decimal q.a h.a_byte,
        part_number-decimal q.b h.b_byte,
        part_number-decimal q.c h.c_byte,
        part_number-decimal q.d h.d_byte,
        zero-bit_or (u32 (u32 q.a <<< 24)),
      )
      (ap ok (
        bit_or_four (u32 (u32 q.a <<< 24)) (u32 (u32 q.b <<< 16)) (u32 (u32 q.c <<< 8))
          (u32 (u32 q.d <<< 0)) (omega arith) (omega arith) (omega arith) (omega arith)
          (omega arith) (omega arith)
        ∙ omega arith))

-- The number of an IPv4 address made of bytes, in either of its forms, is that of its four bytes,
-- and the conversion does not panic.
pub ip_to_uint32-eq-word :
    (v6_text : Ip → List ℕ) (ip : Ip) (q : Quad)
    → to4 ip ≡ some q
    → IsQuad q
    → ip_to_uint32 v6_text ip ≡ ok (word q.a q.b q.c q.d)
unfolding ip_to_uint32
ip_to_uint32-eq-word v6_text ip q e h = rw (split_dots-ip_string v6_text ip q e) (four_parts q h)

mask_from-be_value :
    (result : ℕ) (mask : List ℕ)
    → All IsByte mask
    → mask_from (u32 result) mask ≡ u32 (be_value result mask)
unfolding mask_from
mask_from-be_value result [] h = refl
mask_from-be_value result (b ∷ mask) h =
    rw (bit_or_disjoint 8 (u32 (u32 result <<< 8)) b (omega arith) h.0, shifted)
      (mask_from-be_value (result * 256 + b) mask h.1)
  where
    shifted : u32 (u32 result <<< 8) + b ≡ u32 (result * 256 + b)
    shifted = omega (arith, h.0)

-- The number of a mask made of bytes is that of its last four bytes: a 4-byte mask and the 16-byte
-- mask of an IPv4 network in IPv6 form give the same.
pub mask_to_uint32-eq-word :
    (front : List ℕ) (a b c d : ℕ)
    → All IsByte (front ++ (a ∷ b ∷ c ∷ d ∷ []))
    → mask_to_uint32 (front ++ (a ∷ b ∷ c ∷ d ∷ [])) ≡ word a b c d
unfolding mask_to_uint32
mask_to_uint32-eq-word front a b c d h =
    let last = All-append_right IsByte front (a ∷ b ∷ c ∷ d ∷ []) h in
    omega (
      arith,
      mask_from-be_value 0 (front ++ (a ∷ b ∷ c ∷ d ∷ [])) h,
      be_value-append 0 front (a ∷ b ∷ c ∷ d ∷ []),
      last,
    )
