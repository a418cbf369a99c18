-- ===== src/Agent/Packet.antt =====
-- A packet as agent/kubezonnet.c reads it: the IPv4 header of agent/vmlinux.h laid over its first
-- 20 bytes, on a little-endian machine, and the two ports behind the header.
pub mod Header
pub mod Ports
pub mod Context
use kubezonnet.Prelude.{ℕ, ◌+◌, ◌*◌, ◌%◌, ◌^◌, List, [], ◌∷◌, Option, none, some}

-- The fields of `struct iphdr` that are read; `tot_len`, `saddr` and `daddr` are as in memory.
pub record Iphdr : Type 0 where
  pub ihl : ℕ
  pub tot_len : ℕ
  pub protocol : ℕ
  pub saddr : ℕ
  pub daddr : ℕ

-- A load of two or four bytes on a little-endian machine.
abbrev pub load16 : ℕ → ℕ → ℕ
load16 b0 b1 = b0 + b1 * 2 ^ 8

abbrev pub load32 : ℕ → ℕ → ℕ → ℕ → ℕ
load32 b0 b1 b2 b3 = b0 + b1 * 2 ^ 8 + b2 * 2 ^ 16 + b3 * 2 ^ 24

-- `struct iphdr *ip = bytes`: `ihl` is the low half of the first byte.
unfoldable pub iphdr_of : List ℕ → Option Iphdr
iphdr_of
      (ver_ihl ∷ tos ∷ len0 ∷ len1 ∷ id0 ∷ id1 ∷ frag0 ∷ frag1 ∷ ttl ∷ protocol ∷ check0 ∷ check1
        ∷ s0 ∷ s1 ∷ s2 ∷ s3 ∷ d0 ∷ d1 ∷ d2 ∷ d3 ∷ []) =
    some (record {
      ihl = ver_ihl % 16;
      tot_len = load16 len0 len1;
      protocol = protocol;
      saddr = load32 s0 s1 s2 s3;
      daddr = load32 d0 d1 d2 d3;
    })
iphdr_of _ = none

-- `ports[0]` and `ports[1]` of a slice of four bytes.
unfoldable pub ports_of : List ℕ → Option (ℕ × ℕ)
ports_of (a0 ∷ a1 ∷ b0 ∷ b1 ∷ []) = some (load16 a0 a1, load16 b0 b1)
ports_of _ = none
