-- ===== src/Agent/Tests.antt =====
-- Runs of the agent's conversions and of its hook, with functions in place of the kernel's.
pub mod Layout
pub mod Cell
pub mod Node
pub mod Race
pub mod Setup
use kubezonnet.Prelude.{
  ℕ, ◌+◌, ◌*◌, ◌/◌, ◌%◌, ◌^◌, ◌≡◌, ◌↔◌, ◌⊎◌, refl, String, List, [], ◌∷◌, Option, none, some, Bool,
  true, ok, arith, All, IsByte, length, take, drop, map, leb, if◌then◌else◌, u8, length-take,
  length-drop, length-map,
}
use kubezonnet.Dict.{Dict, get, put, get-put, IsKeyType}
use kubezonnet.Payload.{IpKey}
use kubezonnet.ByteOrder.{htonl}
use kubezonnet.Net.{Ip, Quad, to4, cidr_mask}
use kubezonnet.Net.Laws.{IsQuad}
use kubezonnet.Agent.Address.{
  ip_to_uint32, ip_to_uint32-eq-word, mask_to_uint32, mask_to_uint32-eq-word,
}
use kubezonnet.Agent.Subnet.{Constants, configure, in_subnet, configure_iff}
use kubezonnet.Agent.Packet.{iphdr_of, ports_of}
use kubezonnet.Agent.Hook.Wire.{constants_of, IsInside, hook-wire}
use kubezonnet.Agent.Hook.{
  Kernel, MapOps, nf_accept, nf_postrouting_hook, handle_v4, count_packet, key_of,
}
use kubezonnet.Agent.Hook.Totals.{same_key, same_key_iff, MapLaws, total, packet_of, run, total-run}

-- 10.0.1.2, in the 16-byte form that `net.ParseIP` returns.
abbrev pub sample_ip : Ip
sample_ip = 0 ∷ 0 ∷ 0 ∷ 0 ∷ 0 ∷ 0 ∷ 0 ∷ 0 ∷ 0 ∷ 0 ∷ 255 ∷ 255 ∷ 10 ∷ 0 ∷ 1 ∷ 2 ∷ []

abbrev sample_quad : Quad
sample_quad = record { a = 10; b = 0; c = 1; d = 2 }

abbrev pub no_text : Ip → List ℕ
no_text ip = []

sample_quad-IsQuad : IsQuad sample_quad
sample_quad-IsQuad = record {
  a_byte = omega arith;
  b_byte = omega arith;
  c_byte = omega arith;
  d_byte = omega arith;
}

sample_to4 : to4 sample_ip ≡ some sample_quad
unfolding to4
sample_to4 = refl

-- `net.ParseCIDR` of one text, 10.0.1.2/24.
abbrev pub sample_cidr : String → Option (Ip × List ℕ)
sample_cidr s = some (sample_ip, cidr_mask 24 4)

-- The address of the text has host bits, so that its own network is not matched.
configure_iff_example :
    (c : Constants) × (configure no_text sample_cidr "10.0.1.2/24" ≡ ok (some c))
    × ((in_subnet c (htonl 0x0a000102) ≡ true)
        ↔ ((0x0a000102 / 2 ^ 8 ≡ 0x0a000102 / 2 ^ 8) × (0x0a000102 % 2 ^ 8 ≡ 0)))
configure_iff_example =
    configure_iff no_text sample_cidr "10.0.1.2/24" sample_ip sample_quad 24 0x0a000102 refl
      sample_to4 sample_quad-IsQuad (omega arith) (omega arith)

All-map-u8 : (l : List ℕ) → All IsByte (map u8 l)
All-map-u8 [] = tt
All-map-u8 (b ∷ l) = (omega arith, All-map-u8 l)

-- A packet is the list of its bytes, and every packet is an IPv4 one.
abbrev pub slice_of : List ℕ → ℕ → ℕ → Option (List ℕ)
slice_of skb offset n =
    if leb (offset + n) (length skb) then some (map u8 (take n (drop offset skb))) else none

pub slice_of-bytes :
    (skb : List ℕ) (offset n : ℕ) (bytes : List ℕ)
    → slice_of skb offset n ≡ some bytes
    → (length bytes ≡ n) × All IsByte bytes
slice_of-bytes skb offset n bytes h = ground (
  arith,
  length-map (take n (drop offset skb)) u8,
  length-take n (drop offset skb),
  length-drop offset skb,
  All-map-u8 (take n (drop offset skb)),
)

abbrev pub swap_bytes : ℕ → ℕ
swap_bytes x = x % 256 * 2 ^ 8 + x / 256 % 256

abbrev pub test_kernel : Kernel
test_kernel = record {
  Skb = List ℕ;
  protocol = λ skb. 8;
  dynptr_from_skb = λ skb. 0;
  dynptr_slice = slice_of;
  ntohs = swap_bytes;
  slice_bytes = slice_of-bytes;
  ntohs_lem = λ a b ha hb. omega arith;
}

instance abbrev pub ip_keys : IsKeyType IpKey
ip_keys = record { same = same_key; same_iff = same_key_iff }

-- The map as a list of at most `size` entries.
module _ (size : ℕ) where
  abbrev dict_full : Dict IpKey ℕ → Bool
  dict_full m = leb size (length m)

  abbrev dict_update : Dict IpKey ℕ → IpKey → ℕ → Dict IpKey ℕ × ℕ
  dict_update m k v = elim (get m k) [
    | some w ↦ (put m k v, 0)
    | none ↦ if dict_full m then (m, 1) else (put m k v, 0)
  ]

  abbrev pub dict_ops : MapOps (Dict IpKey ℕ)
  dict_ops = record { lookup = get; store = put; update = dict_update }

  dict_laws : MapLaws dict_ops
  dict_laws = record {
    full = dict_full;
    lookup-store = λ m k w v j e. get-put m k v j;
    lookup-update = λ m k v j new_key room. ground (arith, get-put m k v j);
    update_full = λ m k v new_key no_room. ground arith;
  }

-- 10.0.1.2 port 5000 to 10.0.2.3 port 80 over TCP, 1500 bytes.
abbrev pub sample_skb : List ℕ
sample_skb =
    69 ∷ 0 ∷ 5 ∷ 220 ∷ 0 ∷ 0 ∷ 0 ∷ 0 ∷ 64 ∷ 6 ∷ 0 ∷ 0 ∷ 10 ∷ 0 ∷ 1 ∷ 2 ∷ 10 ∷ 0 ∷ 2 ∷ 3 ∷ 19 ∷ 136
    ∷ 0 ∷ 80 ∷ []

-- The same from 11.0.1.2, which is not in the subnet.
abbrev foreign_skb : List ℕ
foreign_skb =
    69 ∷ 0 ∷ 5 ∷ 220 ∷ 0 ∷ 0 ∷ 0 ∷ 0 ∷ 64 ∷ 6 ∷ 0 ∷ 0 ∷ 11 ∷ 0 ∷ 1 ∷ 2 ∷ 10 ∷ 0 ∷ 2 ∷ 3 ∷ 19 ∷ 136
    ∷ 0 ∷ 80 ∷ []

abbrev pub sample_key : IpKey
sample_key = record { src_ip = 0x0201000a; dst_ip = 0x0302000a; src_port = 5000; dst_port = 80 }

-- 10.0.0.0/8
abbrev pub sample_constants : Constants
sample_constants = record { subnet_prefix = 10; subnet_mask = 255 }

total-run_example :
    total
      (dict_ops 1024)
      (run test_kernel
        (dict_ops 1024)
        sample_constants
        (sample_skb ∷ foreign_skb ∷ sample_skb ∷ [])
        [])
      sample_key
    ≡ 3000
unfolding packet_of key_of iphdr_of ports_of in_subnet same_key get put dict_laws run
    nf_postrouting_hook handle_v4 count_packet
total-run_example =
    total-run test_kernel (dict_ops 1024) (dict_laws 1024) sample_constants
      (sample_skb ∷ foreign_skb ∷ sample_skb ∷ []) [] sample_key (refl, (refl, (refl, tt)))
      (omega arith)

hook-wire_example :
    ((key : IpKey) × IsInside 0x0a000000 8 0x0a000102
      × IsInside 0x0a000000 8 0x0a000203
      × (key.src_ip ≡ htonl 0x0a000102)
      × (key.dst_ip ≡ htonl 0x0a000203)
      × (nf_postrouting_hook test_kernel (dict_ops 1024) (constants_of 0x0a000000 8) sample_skb []
          ≡ (count_packet (dict_ops 1024) key 1500 [], nf_accept)))
    ⊎ ((¬ (IsInside 0x0a000000 8 0x0a000102 × IsInside 0x0a000000 8 0x0a000203))
        × (nf_postrouting_hook test_kernel (dict_ops 1024) (constants_of 0x0a000000 8) sample_skb []
            ≡ ([], nf_accept)))
hook-wire_example =
    hook-wire test_kernel (dict_ops 1024) [] sample_skb 0x0a000000 8 69 0 5 220 0 0 0 0 64 6 0 0 10
      0 1 2 10 0 2 3 (omega arith) (omega arith) refl refl refl
