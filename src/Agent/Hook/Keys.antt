-- ===== src/Agent/Hook/Keys.antt =====
-- The keys that the hook of agent/kubezonnet.c writes fit `struct ip_key`.
use kubezonnet.Prelude.{
  ℕ, ◌*◌, ◌<◌, ◌^◌, ◌≡◌, List, [], ◌∷◌, some, arith, subst, Option-cases, inl, inr, All, IsByte,
}
use kubezonnet.Payload.{IpKey}
use kubezonnet.Payload.RoundTrip.{IsKey}
use kubezonnet.Agent.Subnet.{Constants}
use kubezonnet.Agent.Packet.{Iphdr, iphdr_of, ports_of}
use kubezonnet.Agent.Hook.{Kernel, key_of}
use kubezonnet.Agent.Hook.Totals.{packet_of}

-- Addresses of a header.
iphdr_of-lt :
    (bytes : List ℕ) (ip : Iphdr)
    → All IsByte bytes
    → iphdr_of bytes ≡ some ip
    → (ip.saddr < 2 ^ 32) × (ip.daddr < 2 ^ 32)
unfolding iphdr_of
iphdr_of-lt
      (b0 ∷ b1 ∷ l0 ∷ l1 ∷ b4 ∷ b5 ∷ b6 ∷ b7 ∷ b8 ∷ b9 ∷ c0 ∷ c1 ∷ s0 ∷ s1 ∷ s2 ∷ s3 ∷ d0 ∷ d1 ∷ d2
        ∷ d3 ∷ [])
      ip h e =
    (ground (arith, h), ground (arith, h))
iphdr_of-lt _ ip h e = cc

module _ (kernel : Kernel) where
  open kernel use {Skb, dynptr_slice, ntohs}

  ports_of-lt :
      (bytes : List ℕ) (a b : ℕ)
      → All IsByte bytes
      → ports_of bytes ≡ some (a, b)
      → (ntohs a < 2 ^ 16) × (ntohs b < 2 ^ 16)
  unfolding ports_of
  ports_of-lt (a0 ∷ a1 ∷ b0 ∷ b1 ∷ []) a b h e = (
    ground (arith, h, kernel.ntohs_lem a0 a1 h.0 h.1.0),
    ground (arith, h, kernel.ntohs_lem b0 b1 h.1.1.0 h.1.1.1.0),
  )
  ports_of-lt _ a b h e = cc

  key_of-IsKey :
      (skb : Skb) (ip : Iphdr)
      → ip.saddr < 2 ^ 32
      → ip.daddr < 2 ^ 32
      → IsKey (key_of kernel skb ip)
  unfolding key_of
  key_of-IsKey skb ip hs hd = elim (Option-cases (dynptr_slice skb (ip.ihl * 4) 4)) [
    | inl unread ↦ record {
      src_ip_fits = ground (arith, unread);
      dst_ip_fits = ground (arith, unread);
      src_port_fits = ground (arith, unread);
      dst_port_fits = ground (arith, unread);
    }
    | inr (bytes, e) ↦ elim (Option-cases (ports_of bytes)) [
      | inl unread ↦ record {
        src_ip_fits = ground (arith, unread);
        dst_ip_fits = ground (arith, unread);
        src_port_fits = ground (arith, unread);
        dst_port_fits = ground (arith, unread);
      }
      | inr ((a, b), f) ↦
          let fit = ports_of-lt bytes a b (kernel.slice_bytes skb (ip.ihl * 4) 4 bytes e).1 f in
          record {
            src_ip_fits = ground arith;
            dst_ip_fits = ground arith;
            src_port_fits = ground arith;
            dst_port_fits = ground arith;
          }
    ]
  ]

  pub packet_of-IsKey :
      (constants : Constants) (skb : Skb) (key : IpKey) (size : ℕ)
      → packet_of kernel constants skb ≡ some (key, size)
      → IsKey key
  unfolding packet_of
  packet_of-IsKey constants skb key size h = elim (Option-cases (dynptr_slice skb 0 20)) [
    | inl none_here ↦ let bad : ⊥ = ground arith in absurd bad
    | inr (bytes, e) ↦ elim (Option-cases (iphdr_of bytes)) [
      | inl none_here ↦ let bad : ⊥ = ground arith in absurd bad
      | inr (ip, f) ↦
          let fit = iphdr_of-lt bytes ip (kernel.slice_bytes skb 0 20 bytes e).1 f in
          let is_key : key_of kernel skb ip ≡ key = ground arith in
          subst IsKey is_key (key_of-IsKey skb ip fit.0 fit.1)
    ]
  ]
