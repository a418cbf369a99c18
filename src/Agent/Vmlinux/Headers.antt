-- ===== src/Agent/Vmlinux/Headers.antt =====
-- agent/vmlinux.h: the headers of Ethernet, IPv4, IPv6, TCP, UDP and ICMP.
use kubezonnet.Agent.Layout.{
  CType, unsigned, array, struct_of, union_of, field, bits, inline, end, ◌◂◌,
}
use kubezonnet.Agent.Vmlinux.Scalars.{__be16, __be32, __sum16, __u16, __u8}

abbrev pub iphdr : CType
iphdr = struct_of (
    bits "ihl" __u8 4
    ◂ bits "version" __u8 4
    ◂ field "tos" __u8
    ◂ field "tot_len" __be16
    ◂ field "id" __be16
    ◂ field "frag_off" __be16
    ◂ field "ttl" __u8
    ◂ field "protocol" __u8
    ◂ field "check" __sum16
    ◂ inline (
        union_of (
          inline (struct_of (field "saddr" __be32 ◂ field "daddr" __be32 ◂ end))
          ◂ field "addrs" (struct_of (field "saddr" __be32 ◂ field "daddr" __be32 ◂ end))
          ◂ end))
    ◂ end)

abbrev pub in6_addr : CType
in6_addr = struct_of (
    field "in6_u" (
      union_of (
        field "u6_addr8" (array __u8 16)
        ◂ field "u6_addr16" (array __be16 8)
        ◂ field "u6_addr32" (array __be32 4)
        ◂ end))
    ◂ end)

abbrev pub ipv6hdr : CType
ipv6hdr = struct_of (
    bits "priority" __u8 4
    ◂ bits "version" __u8 4
    ◂ field "flow_lbl" (array __u8 3)
    ◂ field "payload_len" __be16
    ◂ field "nexthdr" __u8
    ◂ field "hop_limit" __u8
    ◂ inline (
        union_of (
          inline (struct_of (field "saddr" in6_addr ◂ field "daddr" in6_addr ◂ end))
          ◂ field "addrs" (struct_of (field "saddr" in6_addr ◂ field "daddr" in6_addr ◂ end))
          ◂ end))
    ◂ end)

abbrev pub tcphdr : CType
tcphdr = struct_of (
    field "source" __be16
    ◂ field "dest" __be16
    ◂ field "seq" __be32
    ◂ field "ack_seq" __be32
    ◂ bits "res1" __u16 4
    ◂ bits "doff" __u16 4
    ◂ bits "fin" __u16 1
    ◂ bits "syn" __u16 1
    ◂ bits "rst" __u16 1
    ◂ bits "psh" __u16 1
    ◂ bits "ack" __u16 1
    ◂ bits "urg" __u16 1
    ◂ bits "ece" __u16 1
    ◂ bits "cwr" __u16 1
    ◂ field "window" __be16
    ◂ field "check" __sum16
    ◂ field "urg_ptr" __be16
    ◂ end)

abbrev pub udphdr : CType
udphdr =
    struct_of (
      field "source" __be16
      ◂ field "dest" __be16
      ◂ field "len" __be16
      ◂ field "check" __sum16
      ◂ end)

abbrev pub ethhdr : CType
ethhdr = struct_of (
    field "h_dest" (array (unsigned 1) 6)
    ◂ field "h_source" (array (unsigned 1) 6)
    ◂ field "h_proto" __be16
    ◂ end)

abbrev pub icmphdr : CType
icmphdr = struct_of (
    field "type" __u8
    ◂ field "code" __u8
    ◂ field "checksum" __sum16
    ◂ field "un" (
        union_of (
          field "echo" (struct_of (field "id" __be16 ◂ field "sequence" __be16 ◂ end))
          ◂ field "gateway" __be32
          ◂ field "frag" (struct_of (field "__unused" __be16 ◂ field "mtu" __be16 ◂ end))
          ◂ field "reserved" (array __u8 4)
          ◂ end))
    ◂ end)
