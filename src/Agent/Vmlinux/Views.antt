-- ===== src/Agent/Vmlinux/Views.antt =====
-- agent/vmlinux.h: the socket buffer as a program sees it, and its shared part.
use kubezonnet.Agent.Layout.{
  CType, unsigned, pointer, array, struct_of, union_of, field, inline, end, ◌◂◌,
}
use kubezonnet.Agent.Vmlinux.Buffers.{atomic_t}
use kubezonnet.Agent.Vmlinux.Scalars.{__u32, __u64, __u8, ktime_t, netmem_ref, u32}

abbrev pub __sk_buff : CType
__sk_buff = struct_of (
    field "len" __u32
    ◂ field "pkt_type" __u32
    ◂ field "mark" __u32
    ◂ field "queue_mapping" __u32
    ◂ field "protocol" __u32
    ◂ field "vlan_present" __u32
    ◂ field "vlan_tci" __u32
    ◂ field "vlan_proto" __u32
    ◂ field "priority" __u32
    ◂ field "ingress_ifindex" __u32
    ◂ field "ifindex" __u32
    ◂ field "tc_index" __u32
    ◂ field "cb" (array __u32 5)
    ◂ field "hash" __u32
    ◂ field "tc_classid" __u32
    ◂ field "data" __u32
    ◂ field "data_end" __u32
    ◂ field "napi_id" __u32
    ◂ field "family" __u32
    ◂ field "remote_ip4" __u32
    ◂ field "local_ip4" __u32
    ◂ field "remote_ip6" (array __u32 4)
    ◂ field "local_ip6" (array __u32 4)
    ◂ field "remote_port" __u32
    ◂ field "local_port" __u32
    ◂ field "data_meta" __u32
    ◂ inline (union_of (field "flow_keys" (pointer "struct bpf_flow_keys") ◂ end))
    ◂ field "tstamp" __u64
    ◂ field "wire_len" __u32
    ◂ field "gso_segs" __u32
    ◂ inline (union_of (field "sk" (pointer "struct bpf_sock") ◂ end))
    ◂ field "gso_size" __u32
    ◂ field "tstamp_type" __u8
    ◂ field "hwtstamp" __u64
    ◂ end)

abbrev pub skb_shared_hwtstamps : CType
skb_shared_hwtstamps = struct_of (
    inline (union_of (field "hwtstamp" ktime_t ◂ field "netdev_data" (pointer "void") ◂ end)) ◂ end)

abbrev pub xsk_tx_metadata_compl : CType
xsk_tx_metadata_compl = struct_of (field "tx_timestamp" (pointer "__u64") ◂ end)

abbrev pub skb_frag : CType
skb_frag =
    struct_of
      (field "netmem" netmem_ref ◂ field "len" (unsigned 4) ◂ field "offset" (unsigned 4) ◂ end)

abbrev pub skb_frag_t : CType
skb_frag_t = skb_frag

abbrev pub skb_shared_info : CType
skb_shared_info = struct_of (
    field "flags" __u8
    ◂ field "meta_len" __u8
    ◂ field "nr_frags" __u8
    ◂ field "tx_flags" __u8
    ◂ field "gso_size" (unsigned 2)
    ◂ field "gso_segs" (unsigned 2)
    ◂ field "frag_list" (pointer "struct sk_buff")
    ◂ inline (
        union_of
          (field "hwtstamps" skb_shared_hwtstamps ◂ field "xsk_meta" xsk_tx_metadata_compl ◂ end))
    ◂ field "gso_type" (unsigned 4)
    ◂ field "tskey" u32
    ◂ field "dataref" atomic_t
    ◂ field "xdp_frags_size" (unsigned 4)
    ◂ field "destructor_arg" (pointer "void")
    ◂ field "frags" (array skb_frag_t 17)
    ◂ end)
