-- ===== src/Agent/Hook/Wire.antt =====
-- Which packets agent/kubezonnet.c counts, by the bytes of their IPv4 header.
use kubezonnet.Prelude.{
  ℕ, ◌+◌, ◌*◌, ◌-◌, ◌/◌, ◌%◌, ◌^◌, ◌<◌, ◌≤◌, ◌≡◌, ◌↔◌, ◌⊎◌, sym, ◌∙◌, [], ◌∷◌, some, true, ◌&&◌,
  arith, IsByte, word, Bool-cases, inl, inr,
}
use kubezonnet.ByteOrder.{htonl}
use kubezonnet.ByteOrder.Laws.{htonl-word}
use kubezonnet.Payload.{IpKey}
use kubezonnet.Agent.Subnet.{Constants, in_subnet, mask_of, in_subnet_iff}
use kubezonnet.Agent.Packet.{Iphdr, load16, load32, iphdr_of}
use kubezonnet.Agent.Hook.{
  eth_p_ip, nf_accept, Kernel, MapOps, key_of, count_packet, nf_postrouting_hook,
}
use kubezonnet.Agent.Hook.Totals.{packet_of, hook_lem}

load32-htonl :
    (a b c d : ℕ)
    → IsByte a × IsByte b × IsByte c × IsByte d
    → load32 a b c d ≡ htonl (word a b c d)
load32-htonl a b c d h = omega arith ∙ sym (htonl-word a b c d h)

key_of-addresses :
    (kernel : Kernel) (skb : kernel.Skb) (ip : Iphdr)
    → ((key_of kernel skb ip).src_ip ≡ ip.saddr) × ((key_of kernel skb ip).dst_ip ≡ ip.daddr)
unfolding key_of
key_of-addresses kernel skb ip = ground arith

-- The constants of a subnet of `k` bits.
abbrev pub constants_of : ℕ → ℕ → Constants
constants_of a k = record { subnet_prefix = htonl a; subnet_mask = htonl (mask_of k) }

-- The address is in the subnet, and the subnet has no host bits.
abbrev pub IsInside : ℕ → ℕ → ℕ → Type 0
IsInside a k x = (x / 2 ^ (32 - k) ≡ a / 2 ^ (32 - k)) × (a % 2 ^ (32 - k) ≡ 0)

module _ (a k : ℕ) (a_fits : a < 2 ^ 32) (k_fits : k ≤ 32) where
  in_subnet-load32 :
      (b0 b1 b2 b3 : ℕ)
      → IsByte b0 × IsByte b1 × IsByte b2 × IsByte b3
      → (in_subnet (constants_of a k) (load32 b0 b1 b2 b3) ≡ true) ↔ IsInside a k (word b0 b1 b2 b3)
  in_subnet-load32 b0 b1 b2 b3 h =
      rw (load32-htonl b0 b1 b2 b3 h)
        (in_subnet_iff a (word b0 b1 b2 b3) k a_fits (omega arith) k_fits)

-- The hook on a packet of which the IPv4 header reads as these bytes, with constants for the first
-- `k` bits of the address `a`: if the source and the destination have these bits and `a` has no
-- others, it counts the total length of the header, which includes the header itself, for a flow
-- that has the two addresses in network byte order; else it leaves the map as it is. It accepts the
-- packet in both cases.
pub hook-wire :
    {M : Type 0} (kernel : Kernel) (ops : MapOps M) (m : M) (skb : kernel.Skb) (a k : ℕ)
    (ver_ihl tos l0 l1 i0 i1 f0 f1 ttl protocol c0 c1 s0 s1 s2 s3 d0 d1 d2 d3 : ℕ)
    → a < 2 ^ 32
    → k ≤ 32
    → kernel.ntohs (kernel.protocol skb) ≡ eth_p_ip
    → kernel.dynptr_from_skb skb ≡ 0
    → kernel.dynptr_slice skb 0 20
      ≡ some (
          ver_ihl ∷ tos ∷ l0 ∷ l1 ∷ i0 ∷ i1 ∷ f0 ∷ f1 ∷ ttl ∷ protocol ∷ c0 ∷ c1 ∷ s0 ∷ s1 ∷ s2 ∷ s3
          ∷ d0 ∷ d1 ∷ d2 ∷ d3 ∷ [])
    → ((key : IpKey) × IsInside a k (word s0 s1 s2 s3)
        × IsInside a k (word d0 d1 d2 d3)
        × (key.src_ip ≡ htonl (word s0 s1 s2 s3))
        × (key.dst_ip ≡ htonl (word d0 d1 d2 d3))
        × (nf_postrouting_hook kernel ops (constants_of a k) skb m
            ≡ (count_packet ops key (l0 * 2 ^ 8 + l1) m, nf_accept)))
      ⊎ ((¬ (IsInside a k (word s0 s1 s2 s3) × IsInside a k (word d0 d1 d2 d3)))
          × (nf_postrouting_hook kernel ops (constants_of a k) skb m ≡ (m, nf_accept)))
unfolding packet_of iphdr_of
hook-wire kernel ops m skb a k ver_ihl tos l0 l1 i0 i1 f0 f1 ttl protocol c0 c1 s0 s1 s2 s3 d0 d1 d2
      d3 ha hk ipv4 readable slice =
    let bytes = (kernel.slice_bytes skb 0 20 _ slice).1 in
    let source = in_subnet-load32 a k ha hk s0 s1 s2 s3 (omega (arith, bytes)) in
    let destination = in_subnet-load32 a k ha hk d0 d1 d2 d3 (omega (arith, bytes)) in
    let ip : Iphdr = record {
      ihl = ver_ihl % 16;
      tot_len = load16 l0 l1;
      protocol = protocol;
      saddr = load32 s0 s1 s2 s3;
      daddr = load32 d0 d1 d2 d3;
    } in
    let addresses = key_of-addresses kernel skb ip in
    let len = kernel.ntohs_lem l0 l1 (omega (arith, bytes)) (omega (arith, bytes)) in
    let hook = hook_lem kernel ops (constants_of a k) skb m in
    elim (Bool-cases
      (in_subnet (constants_of a k) ip.saddr && in_subnet (constants_of a k) ip.daddr)) [
        | inl both ↦ inl (
          key_of kernel skb ip,
          source.0 (ground arith),
          destination.0 (ground arith),
          addresses.0 ∙ load32-htonl s0 s1 s2 s3 (omega (arith, bytes)),
          addresses.1 ∙ load32-htonl d0 d1 d2 d3 (omega (arith, bytes)),
          ground (arith, hook, len),
        )
        | inr outside ↦ inr (
          λ inside. ground (arith, source.1 inside.0, destination.1 inside.1),
          ground (arith, hook),
        )
      ]
