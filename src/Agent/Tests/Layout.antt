-- ===== src/Agent/Tests/Layout.antt =====
-- The layouts and the constants of agent/vmlinux.h on examples, and the places where the program
-- uses them.
use kubezonnet.Agent.Packet.{ports_of, Iphdr, iphdr_of}
use kubezonnet.Agent.Packet.Ports.{ports_of-read_member}
use kubezonnet.Agent.Vmlinux.Headers.{tcphdr, udphdr, iphdr}
use kubezonnet.Agent.Packet.Context.{protocol-read_member}
use kubezonnet.Prelude.{◌^◌, ◌%◌, ◌+◌, take, ℕ, ◌≡◌, refl, [], ◌∷◌, some, arith, length, List}
use kubezonnet.Agent.Enumeration.{number_of}
use kubezonnet.Agent.Layout.{size_of}
use kubezonnet.Agent.Layout.Reads.{load_le, memory_of, read_member}
use kubezonnet.Agent.Packet.Header.{iphdr_of-read_member}
use kubezonnet.Agent.Hook.{ipproto_tcp, ipproto_udp}
use kubezonnet.Agent.Key.{ip_key, ip_value, key_bytes, key_bytes-read_member}
use kubezonnet.Agent.Vmlinux.Buffers.{sk_buff}
use kubezonnet.Agent.Vmlinux.Hooks.{bpf_nf_ctx}
use kubezonnet.Agent.Vmlinux.Sockets.{sock}
use kubezonnet.Agent.Vmlinux.Attributes.{bpf_attr}
use kubezonnet.Agent.Vmlinux.Protocols.{ipproto, nf_inet_hooks, nfproto}
use kubezonnet.Agent.Vmlinux.Kinds.{bpf_map_type}
use kubezonnet.Agent.Tests.{sample_key}

-- The sizes that a C compiler gives.
iphdr_size : size_of iphdr ≡ 20
unfolding size_of
iphdr_size = refl

sk_buff_size : size_of sk_buff ≡ 232
unfolding size_of
sk_buff_size = refl

sock_size : size_of sock ≡ 760
unfolding size_of
sock_size = refl

bpf_attr_size : size_of bpf_attr ≡ 152
unfolding size_of
bpf_attr_size = refl

ip_value_size : size_of ip_value ≡ 8
unfolding size_of
ip_value_size = refl

-- The constants of the hook, of its map and of its attachment by name.
tcp_number : number_of ipproto "IPPROTO_TCP" ≡ some ipproto_tcp
unfolding number_of
tcp_number = refl

udp_number : number_of ipproto "IPPROTO_UDP" ≡ some ipproto_udp
unfolding number_of
udp_number = refl

hash_number : number_of bpf_map_type "BPF_MAP_TYPE_HASH" ≡ some 1
unfolding number_of
hash_number = refl

-- `ProtocolFamily: 2` and `HookNumber: 4` of agent/agent.go.
family_number : number_of nfproto "NFPROTO_IPV4" ≡ some 2
unfolding number_of
family_number = refl

hook_number : number_of nf_inet_hooks "NF_INET_POST_ROUTING" ≡ some 4
unfolding number_of
hook_number = refl

abbrev header_bytes : List ℕ
header_bytes =
    69 ∷ 0 ∷ 5 ∷ 220 ∷ 0 ∷ 0 ∷ 0 ∷ 0 ∷ 64 ∷ 6 ∷ 0 ∷ 0 ∷ 10 ∷ 0 ∷ 1 ∷ 2 ∷ 10 ∷ 0 ∷ 2 ∷ 3 ∷ []

iphdr_of-read_member_example :
    (ip : Iphdr) × (iphdr_of header_bytes ≡ some ip)
    × (read_member (memory_of header_bytes) 0 iphdr "ihl" ≡ some ip.ihl)
    × (read_member (memory_of header_bytes) 0 iphdr "tot_len" ≡ some ip.tot_len)
    × (read_member (memory_of header_bytes) 0 iphdr "protocol" ≡ some ip.protocol)
    × (read_member (memory_of header_bytes) 0 iphdr "saddr" ≡ some ip.saddr)
    × (read_member (memory_of header_bytes) 0 iphdr "daddr" ≡ some ip.daddr)
unfolding size_of
iphdr_of-read_member_example = iphdr_of-read_member header_bytes (omega arith) refl

key_bytes-read_member_example :
    (length (key_bytes sample_key) ≡ size_of ip_key)
    × (read_member (memory_of (key_bytes sample_key)) 0 ip_key "src_ip" ≡ some 0x0201000a)
    × (read_member (memory_of (key_bytes sample_key)) 0 ip_key "dest_ip" ≡ some 0x0302000a)
    × (read_member (memory_of (key_bytes sample_key)) 0 ip_key "src_port" ≡ some 5000)
    × (read_member (memory_of (key_bytes sample_key)) 0 ip_key "dest_port" ≡ some 80)
key_bytes-read_member_example = key_bytes-read_member sample_key (record {
  src_ip_fits = omega arith;
  dst_ip_fits = omega arith;
  src_port_fits = omega arith;
  dst_port_fits = omega arith;
})

abbrev transport_bytes : List ℕ
transport_bytes = 19 ∷ 136 ∷ 0 ∷ 80 ∷ 0 ∷ 0 ∷ 0 ∷ 1 ∷ []

ports_of-read_member_example :
    (source : ℕ) × (dest : ℕ) × (ports_of (take 4 transport_bytes) ≡ some (source, dest))
    × (read_member (memory_of transport_bytes) 0 tcphdr "source" ≡ some source)
    × (read_member (memory_of transport_bytes) 0 tcphdr "dest" ≡ some dest)
    × (read_member (memory_of transport_bytes) 0 udphdr "source" ≡ some source)
    × (read_member (memory_of transport_bytes) 0 udphdr "dest" ≡ some dest)
ports_of-read_member_example = ports_of-read_member transport_bytes (omega arith) (omega arith)

-- Each byte is its address, modulo 256.
abbrev addresses : ℕ → ℕ
addresses a = a % 2 ^ 8

protocol-read_member_example :
    (read_member addresses 16 bpf_nf_ctx "skb" ≡ some (load_le addresses 8 (16 + 8)))
    × (read_member addresses 512 sk_buff "protocol" ≡ some (load_le addresses 2 (512 + 180)))
protocol-read_member_example = protocol-read_member addresses 16 512 (λ a. omega arith)
