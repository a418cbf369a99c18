-- ===== src/Agent/Subnet.antt =====
-- The subnet of the agent: agent/agent.go turns the CIDR of the command line into two constants
-- of the eBPF program, and agent/kubezonnet.c compares the masked addresses of a packet with them.
use Prim.Native.Nat.add
use native.Mathlib.Nat.{
  pow-succ', one-le-pow, mod-eq_of_lt, suc-add, mul-div_cancel, mul-mod_left, div-add-mod,
}
use native.Mathlib.Decide.{dec_lt}
use kubezonnet.Prelude.{
  subst, ℕ, zero, suc, ◌+◌, ◌-◌, ◌*◌, ◌/◌, ◌%◌, ◌^◌, ◌<◌, ◌≤◌, ◌≡◌, ◌↔◌, sym, ap, ◌∙◌, List, Option,
  none, some, Bool, true, ◌==◌, ==_iff, bit_and, Outcome, ok, ◌>>=◌, word, arith, String,
}
use kubezonnet.Bits.{and_split, bit_and_ones, bit_and-zero}
use kubezonnet.ByteOrder.{htonl, ntohl}
use kubezonnet.ByteOrder.Laws.{ntohl-htonl, bit_and-htonl}
use kubezonnet.Net.{Ip, Quad, to4, cidr_mask}
use kubezonnet.Net.Laws.{IsQuad}
use kubezonnet.Agent.Address.{ip_to_uint32, mask_to_uint32, ip_to_uint32-eq-word}

-- The constants `subnet_prefix` and `subnet_mask` of the eBPF program.
pub record Constants : Type 0 where
  pub subnet_prefix : ℕ
  pub subnet_mask : ℕ

-- `none` is the exit with the usage message. `parse_cidr` is `net.ParseCIDR`: the address as it
-- is written, and the mask.
unfoldable pub configure :
    (Ip → List ℕ) → (String → Option (Ip × List ℕ)) → String → Outcome ⊥ (Option Constants)
configure v6_text parse_cidr subnet_cidr = elim (parse_cidr subnet_cidr) [
  | none ↦ ok none
  | some (ip, mask) ↦ elim (to4 ip) [
    | none ↦ ok none
    | some q ↦ do
      ip_uint ← ip_to_uint32 v6_text ip
      ok (
          some
            (record { subnet_prefix = htonl ip_uint; subnet_mask = htonl (mask_to_uint32 mask) }))
  ]
]

-- `(addr & subnet_mask) == subnet_prefix`
unfoldable pub in_subnet : Constants → ℕ → Bool
in_subnet constants addr = bit_and addr constants.subnet_mask == constants.subnet_prefix

-- The mask of a prefix of `k` bits.
abbrev pub mask_of : ℕ → ℕ
mask_of k = 2 ^ 32 - 2 ^ (32 - k)

-- A property of every number below a bound, each proved by evaluation.
abbrev Below : (ℕ → Type 0) → ℕ → Type 0
Below P zero = Unit
Below P (suc bound) = Below P bound × P bound

Below-get : (P : ℕ → Type 0) (bound k : ℕ) → Below P bound → k < bound → P k
Below-get P zero k h lt = absurd (omega arith)
Below-get P (suc bound) k h lt = elim (dec_lt k bound) [
  | yes lower ↦ Below-get P bound k h.0 lower
  | no last ↦ subst P (omega arith) h.1
]

abbrev IsMask : ℕ → Type 0
IsMask k = mask_to_uint32 (cidr_mask k 4) ≡ mask_of k

masks : Below IsMask 33
unfolding mask_to_uint32 cidr_mask
masks = omega arith

pub mask_to_uint32-cidr_mask : (k : ℕ) → k ≤ 32 → mask_to_uint32 (cidr_mask k 4) ≡ mask_of k
mask_to_uint32-cidr_mask k h = Below-get IsMask 33 k masks (omega arith)

pow_add : (k h : ℕ) → 2 ^ (k + h) ≡ 2 ^ k * 2 ^ h
pow_add zero h = rw add.zero (omega arith)
pow_add (suc k) h = rw (suc-add, pow-succ' 2 (k + h), pow-succ' 2 k) (omega (arith, pow_add k h))

pow_32 : (k : ℕ) → k ≤ 32 → 2 ^ k * 2 ^ (32 - k) ≡ 2 ^ 32
pow_32 k h =
    let whole : k + (32 - k) ≡ 32 = omega arith in
    sym (pow_add k (32 - k)) ∙ ap (λ (n : ℕ). 2 ^ n) whole

quotient-lt : (x p q : ℕ) → 0 < q → x < p * q → x / q < p
quotient-lt x p q h lt = grind arith

-- Masking keeps the first `k` of `k + h` bits.
module _ (k h x : ℕ) (x_fits : x < 2 ^ k * 2 ^ h) where
  high_bits : bit_and (x / 2 ^ h) (2 ^ k - 1) ≡ x / 2 ^ h
  high_bits =
      bit_and_ones k (x / 2 ^ h)
      ∙ mod-eq_of_lt (quotient-lt x (2 ^ k) (2 ^ h) (one-le-pow h 2 (omega arith)) x_fits)

  and_high : bit_and x ((2 ^ k - 1) * 2 ^ h) ≡ x / 2 ^ h * 2 ^ h
  and_high =
      rw
        (
          and_split h x ((2 ^ k - 1) * 2 ^ h),
          mul-div_cancel (2 ^ k - 1) (one-le-pow h 2 (omega arith)),
          mul-mod_left (2 ^ k - 1) (2 ^ h),
          bit_and-zero,
          high_bits,
        )
        (omega arith)

pred-mul : (p q : ℕ) → 0 < p → (p - 1) * q + q ≡ p * q
pred-mul zero q h = absurd (omega arith)
pred-mul (suc p) q h = grind arith

mask_of-eq : (k : ℕ) → k ≤ 32 → mask_of k ≡ (2 ^ k - 1) * 2 ^ (32 - k)
mask_of-eq k h =
    omega (arith, pow_32 k h, pred-mul (2 ^ k) (2 ^ (32 - k)) (one-le-pow k 2 (omega arith)))

and_mask : (x k : ℕ) → x < 2 ^ 32 → k ≤ 32 → bit_and x (mask_of k) ≡ x / 2 ^ (32 - k) * 2 ^ (32 - k)
and_mask x k hx hk =
    ap (bit_and x) (mask_of-eq k hk) ∙ and_high k (32 - k) x (omega (arith, pow_32 k hk))

htonl-injective : (x y : ℕ) → x < 2 ^ 32 → y < 2 ^ 32 → htonl x ≡ htonl y → x ≡ y
htonl-injective x y hx hy e = sym (ntohl-htonl x hx).0 ∙ ap ntohl e ∙ (ntohl-htonl y hy).0

masked :
    (x k : ℕ)
    → x < 2 ^ 32
    → k ≤ 32
    → bit_and (htonl x) (htonl (mask_of k)) ≡ htonl (x / 2 ^ (32 - k) * 2 ^ (32 - k))
masked x k hx hk =
    bit_and-htonl x (mask_of k) hx (omega (arith, one-le-pow (32 - k) 2 (omega arith)))
    ∙ ap htonl (and_mask x k hx hk)

quotient_iff : (a x q : ℕ) → 0 < q → (x / q * q ≡ a) ↔ ((x / q ≡ a / q) × (a % q ≡ 0))
quotient_iff a x q h = (
  λ e. (
    sym (mul-div_cancel (x / q) h) ∙ ap (λ t. t / q) e,
    ap (λ t. t % q) (sym e) ∙ mul-mod_left (x / q) q,
  ),
  λ e. ap (λ (t : ℕ). t * q) e.0 ∙ omega (arith, div-add-mod a q, e.1),
)

pub in_subnet_iff :
    (a x k : ℕ)
    → a < 2 ^ 32
    → x < 2 ^ 32
    → k ≤ 32
    → (in_subnet (record { subnet_prefix = htonl a; subnet_mask = htonl (mask_of k) }) (htonl x)
        ≡ true)
      ↔ ((x / 2 ^ (32 - k) ≡ a / 2 ^ (32 - k)) × (a % 2 ^ (32 - k) ≡ 0))
unfolding in_subnet
in_subnet_iff a x k ha hx hk =
    let q = 2 ^ (32 - k) in
    let pos = one-le-pow (32 - k) 2 (omega arith) in
    let quotient = quotient_iff a x q pos in
    let fits : x / q * q < 2 ^ 32 = omega (arith, div-add-mod x q) in
    rw (masked x k hx hk) (
      λ e. quotient.0 (htonl-injective (x / q * q) a fits ha ((==_iff _ _).0 e)),
      λ e. (==_iff _ _).1 (ap htonl (quotient.1 e)),
    )

-- If the CIDR's text parses to an IPv4 address and a mask of `k` bits, the agent computes its
-- constants without a panic, and its eBPF program takes a packet's address for one of the subnet
-- exactly when the address has the first `k` bits of the configured one and the configured one
-- has no other bits set.
pub configure_iff :
    (v6_text : Ip → List ℕ) (parse_cidr : String → Option (Ip × List ℕ)) (subnet_cidr : String)
    (ip : Ip) (q : Quad) (k x : ℕ)
    → parse_cidr subnet_cidr ≡ some (ip, cidr_mask k 4)
    → to4 ip ≡ some q
    → IsQuad q
    → k ≤ 32
    → x < 2 ^ 32
    → (c : Constants) × (configure v6_text parse_cidr subnet_cidr ≡ ok (some c))
      × ((in_subnet c (htonl x) ≡ true) ↔ (
          (x / 2 ^ (32 - k) ≡ word q.a q.b q.c q.d / 2 ^ (32 - k))
          × (word q.a q.b q.c q.d % 2 ^ (32 - k) ≡ 0)))
unfolding configure
configure_iff v6_text parse_cidr subnet_cidr ip q k x parsed v4 bytes hk hx =
    let a = word q.a q.b q.c q.d in
    (
      record { subnet_prefix = htonl a; subnet_mask = htonl (mask_of k) },
      rw (
        configure,
        parsed,
        v4,
        ip_to_uint32-eq-word v6_text ip q v4 bytes,
        mask_to_uint32-cidr_mask k hk,
      ),
      in_subnet_iff a x k (omega (arith, bytes)) hx hk,
    )
