-- ===== src/Agent/Hook.antt =====
-- agent/kubezonnet.c: the netfilter hook, which counts the bytes of the packets of the subnet in a
-- map of the kernel and accepts every packet. The kernel's functions and `bpf_ntohs` are given by
-- an interface, as they are not in the repository.
pub mod Totals
pub mod Wire
pub mod Keys
pub mod Race
use kubezonnet.Prelude.{
  ℕ, ◌+◌, ◌*◌, ◌^◌, ◌<◌, ◌≡◌, refl, Bool, true, false, not, ◌&&◌, ◌||◌, Option, none, some, List,
  ◌==◌, if◌then◌else◌, u64, length, All, IsByte,
}
use kubezonnet.Payload.{IpKey}
use kubezonnet.Agent.Subnet.{Constants, in_subnet}
use kubezonnet.Agent.Packet.{Iphdr, iphdr_of, ports_of}

-- NF_ACCEPT, ETH_P_IP, ETH_P_IPV6, IPPROTO_TCP, IPPROTO_UDP
abbrev pub nf_accept : ℕ
nf_accept = 1

abbrev pub eth_p_ip : ℕ
eth_p_ip = 0x0800

abbrev pub eth_p_ipv6 : ℕ
eth_p_ipv6 = 0x86DD

abbrev pub ipproto_tcp : ℕ
ipproto_tcp = 6

abbrev pub ipproto_udp : ℕ
ipproto_udp = 17

-- What the hook calls: `skb->protocol`, `bpf_dynptr_from_skb` with 0 for success,
-- `bpf_dynptr_slice` with its offset and size, and `bpf_ntohs`, which exchanges the two bytes.
pub record Kernel : Type 1 where
  pub Skb : Type 0
  pub protocol : Skb → ℕ
  pub dynptr_from_skb : Skb → ℕ
  pub dynptr_slice : Skb → ℕ → ℕ → Option (List ℕ)
  pub ntohs : ℕ → ℕ
  -- A slice is made of bytes, as many as were asked for.
  pub slice_bytes :
      (skb : Skb) (offset n : ℕ) (bytes : List ℕ)
      → dynptr_slice skb offset n ≡ some bytes
      → (length bytes ≡ n) × All IsByte bytes
  pub ntohs_lem : (a b : ℕ) → a < 256 → b < 256 → ntohs (a + b * 2 ^ 8) ≡ a * 2 ^ 8 + b

-- The map `ip_map`: a lookup, a write through the pointer that a lookup returned, and
-- `bpf_map_update_elem` with BPF_ANY and its result, 0 for success.
pub record MapOps (M : Type 0) : Type 0 where
  pub lookup : M → IpKey → Option ℕ
  pub store : M → IpKey → ℕ → M
  pub update : M → IpKey → ℕ → M × ℕ

-- The lookup of the key, then an addition to the entry or a new entry. The result of the update is
-- not looked at.
unfoldable pub count_packet : {M : Type 0} → MapOps M → IpKey → ℕ → M → M
count_packet ops key packet_size ip_map = elim (ops.lookup ip_map key) [
  | some value ↦ ops.store ip_map key (u64 (value + packet_size))
  | none ↦ (ops.update ip_map key packet_size).0
]

module _ (kernel : Kernel) where
  open kernel use {Skb, protocol, dynptr_from_skb, dynptr_slice, ntohs}

  -- The ports of a TCP or UDP packet, 0 where they cannot be read and for other protocols.
  unfoldable pub key_of : Skb → Iphdr → IpKey
  key_of skb ip =
      let plain : IpKey = record {
        src_ip = ip.saddr;
        dst_ip = ip.daddr;
        src_port = 0;
        dst_port = 0;
      } in
      if ip.protocol == ipproto_tcp || ip.protocol == ipproto_udp
      then (elim (dynptr_slice skb (ip.ihl * 4) 4) [
        | none ↦ plain
        | some bytes ↦ elim (ports_of bytes) [
          | none ↦ plain
          | some (first, second) ↦ record plain { src_port = ntohs first; dst_port = ntohs second }
        ]
      ])
      else plain

  unfoldable pub handle_v4 : {M : Type 0} → MapOps M → Constants → Skb → M → M × ℕ
  handle_v4 ops constants skb ip_map =
      if not (dynptr_from_skb skb == 0) then (ip_map, nf_accept) else elim (dynptr_slice skb 0 20) [
        | none ↦ (ip_map, nf_accept)
        | some bytes ↦ elim (iphdr_of bytes) [
          | none ↦ (ip_map, nf_accept)
          | some ip ↦
              if in_subnet constants ip.saddr && in_subnet constants ip.daddr
              then (count_packet ops (key_of skb ip) (ntohs ip.tot_len) ip_map, nf_accept)
              else (ip_map, nf_accept)
        ]
      ]

  unfoldable pub nf_postrouting_hook : {M : Type 0} → MapOps M → Constants → Skb → M → M × ℕ
  nf_postrouting_hook ops constants skb ip_map =
      let proto = ntohs (protocol skb) in
      if proto == eth_p_ip
      then handle_v4 ops constants skb ip_map
      else if proto == eth_p_ipv6
      then (ip_map, nf_accept)
      else (ip_map, nf_accept)
