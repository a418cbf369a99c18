-- ===== src/Agent/Packet/Header.antt =====
-- The header that agent/kubezonnet.c reads through `struct iphdr` of agent/vmlinux.h.
use kubezonnet.Prelude.{ℕ, ◌≡◌, refl, ap, List, [], ◌∷◌, some, length, arith, All, IsByte}
use kubezonnet.Agent.Layout.{size_of, member_of}
use kubezonnet.Agent.Layout.Reads.{memory_of, read_member}
use kubezonnet.Agent.Packet.{Iphdr, iphdr_of}
use kubezonnet.Agent.Vmlinux.Headers.{iphdr}

-- A slice of as many bytes as `struct iphdr` has gives a header, and its fields are what the C
-- expressions `ip->ihl`, `ip->tot_len`, `ip->protocol`, `ip->saddr` and `ip->daddr` read through
-- the layout of the struct.
pub iphdr_of-read_member :
    (bytes : List ℕ)
    → All IsByte bytes
    → length bytes ≡ size_of iphdr
    → (ip : Iphdr) × (iphdr_of bytes ≡ some ip)
      × (read_member (memory_of bytes) 0 iphdr "ihl" ≡ some ip.ihl)
      × (read_member (memory_of bytes) 0 iphdr "tot_len" ≡ some ip.tot_len)
      × (read_member (memory_of bytes) 0 iphdr "protocol" ≡ some ip.protocol)
      × (read_member (memory_of bytes) 0 iphdr "saddr" ≡ some ip.saddr)
      × (read_member (memory_of bytes) 0 iphdr "daddr" ≡ some ip.daddr)
unfolding iphdr_of read_member member_of
iphdr_of-read_member
      (v ∷ tos ∷ l0 ∷ l1 ∷ i0 ∷ i1 ∷ f0 ∷ f1 ∷ ttl ∷ p ∷ c0 ∷ c1 ∷ s0 ∷ s1 ∷ s2 ∷ s3 ∷ d0 ∷ d1 ∷ d2
        ∷ d3 ∷ [])
      h e =
    (
      _,
      refl,
      ap some (omega (arith, h)),
      ap some (omega (arith, h)),
      ap some (omega (arith, h)),
      ap some (omega (arith, h)),
      ap some (omega (arith, h)),
    )
iphdr_of-read_member _ h e = absurd (omega (arith, e))
