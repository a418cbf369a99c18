-- ===== src/Agent/Packet/Ports.antt =====
-- The ports that agent/kubezonnet.c reads behind the header of a packet, and the headers of TCP and
-- UDP in agent/vmlinux.h.
use kubezonnet.Prelude.{
  ℕ, ◌≡◌, ◌≤◌, refl, ap, List, [], ◌∷◌, some, length, take, arith, All, IsByte,
}
use kubezonnet.Agent.Layout.{member_of}
use kubezonnet.Agent.Layout.Reads.{memory_of, read_member}
use kubezonnet.Agent.Packet.{ports_of}
use kubezonnet.Agent.Vmlinux.Headers.{tcphdr, udphdr}

-- The first four bytes of a transport header of four bytes or more are two ports, and these are what
-- the members `source` and `dest` read, through the layout of `struct tcphdr` and through that of
-- `struct udphdr`: both have their ports at the same offset.
pub ports_of-read_member :
    (bytes : List ℕ)
    → All IsByte bytes
    → 4 ≤ length bytes
    → (source : ℕ) × (dest : ℕ) × (ports_of (take 4 bytes) ≡ some (source, dest))
      × (read_member (memory_of bytes) 0 tcphdr "source" ≡ some source)
      × (read_member (memory_of bytes) 0 tcphdr "dest" ≡ some dest)
      × (read_member (memory_of bytes) 0 udphdr "source" ≡ some source)
      × (read_member (memory_of bytes) 0 udphdr "dest" ≡ some dest)
unfolding ports_of read_member member_of
ports_of-read_member (a ∷ b ∷ c ∷ d ∷ rest) hb h = (
  _,
  _,
  refl,
  ap some (omega (arith, hb)),
  ap some (omega (arith, hb)),
  ap some (omega (arith, hb)),
  ap some (omega (arith, hb)),
)
ports_of-read_member [] hb h = absurd (omega (arith, h))
ports_of-read_member (a ∷ []) hb h = absurd (omega (arith, h))
ports_of-read_member (a ∷ b ∷ []) hb h = absurd (omega (arith, h))
ports_of-read_member (a ∷ b ∷ c ∷ []) hb h = absurd (omega (arith, h))
