-- ===== src/Agent/Vmlinux/Buffers.antt =====
-- agent/vmlinux.h: the socket buffer, which holds a packet.
use kubezonnet.Agent.Layout.{
  CType, signed, unsigned, pointer, array, struct_of, union_of, field, bits, inline, end, ◌◂◌,
}
use kubezonnet.Agent.Vmlinux.Scalars.{
  __be16, __u16, __u32, __u8, __wsum, ktime_t, sk_buff_data_t, u16, u32, u64,
}

abbrev pub rb_node : CType
rb_node = struct_of (
    field "__rb_parent_color" (unsigned 8)
    ◂ field "rb_right" (pointer "struct rb_node")
    ◂ field "rb_left" (pointer "struct rb_node")
    ◂ end)

abbrev pub list_head : CType
list_head =
    struct_of
      (field "next" (pointer "struct list_head") ◂ field "prev" (pointer "struct list_head") ◂ end)

abbrev pub llist_node : CType
llist_node = struct_of (field "next" (pointer "struct llist_node") ◂ end)

abbrev pub atomic_t : CType
atomic_t = struct_of (field "counter" (signed 4) ◂ end)

abbrev pub refcount_struct : CType
refcount_struct = struct_of (field "refs" atomic_t ◂ end)

abbrev pub refcount_t : CType
refcount_t = refcount_struct

abbrev pub sk_buff_pkt_type : CType
sk_buff_pkt_type = struct_of (
    field "__pkt_type_offset" (array __u8 0)
    ◂ bits "pkt_type" __u8 3
    ◂ bits "ignore_df" __u8 1
    ◂ bits "dst_pending_confirm" __u8 1
    ◂ bits "ip_summed" __u8 2
    ◂ bits "ooo_okay" __u8 1
    ◂ field "__mono_tc_offset" (array __u8 0)
    ◂ bits "tstamp_type" __u8 2
    ◂ bits "tc_at_ingress" __u8 1
    ◂ bits "tc_skip_classify" __u8 1
    ◂ bits "remcsum_offload" __u8 1
    ◂ bits "csum_complete_sw" __u8 1
    ◂ bits "csum_level" __u8 2
    ◂ bits "inner_protocol_type" __u8 1
    ◂ bits "l4_hash" __u8 1
    ◂ bits "sw_hash" __u8 1
    ◂ bits "wifi_acked_valid" __u8 1
    ◂ bits "wifi_acked" __u8 1
    ◂ bits "no_fcs" __u8 1
    ◂ bits "encapsulation" __u8 1
    ◂ bits "encap_hdr_csum" __u8 1
    ◂ bits "csum_valid" __u8 1
    ◂ bits "ndisc_nodetype" __u8 2
    ◂ bits "ipvs_property" __u8 1
    ◂ bits "nf_trace" __u8 1
    ◂ bits "offload_fwd_mark" __u8 1
    ◂ bits "offload_l3_fwd_mark" __u8 1
    ◂ bits "redirected" __u8 1
    ◂ bits "from_ingress" __u8 1
    ◂ bits "nf_skip_egress" __u8 1
    ◂ bits "decrypted" __u8 1
    ◂ bits "slow_gro" __u8 1
    ◂ bits "csum_not_inet" __u8 1
    ◂ field "tc_index" __u16
    ◂ field "alloc_cpu" u16
    ◂ inline (
        union_of (
          field "csum" __wsum
          ◂ inline (struct_of (field "csum_start" __u16 ◂ field "csum_offset" __u16 ◂ end))
          ◂ end))
    ◂ field "priority" __u32
    ◂ field "skb_iif" (signed 4)
    ◂ field "hash" __u32
    ◂ inline (
        union_of (
          field "vlan_all" u32
          ◂ inline (struct_of (field "vlan_proto" __be16 ◂ field "vlan_tci" __u16 ◂ end))
          ◂ end))
    ◂ inline (union_of (field "napi_id" (unsigned 4) ◂ field "sender_cpu" (unsigned 4) ◂ end))
    ◂ field "secmark" __u32
    ◂ inline (union_of (field "mark" __u32 ◂ field "reserved_tailroom" __u32 ◂ end))
    ◂ inline (union_of (field "inner_protocol" __be16 ◂ field "inner_ipproto" __u8 ◂ end))
    ◂ field "inner_transport_header" __u16
    ◂ field "inner_network_header" __u16
    ◂ field "inner_mac_header" __u16
    ◂ field "protocol" __be16
    ◂ field "transport_header" __u16
    ◂ field "network_header" __u16
    ◂ field "mac_header" __u16
    ◂ end)

abbrev pub sk_buff_headers : CType
sk_buff_headers = struct_of (
    field "__pkt_type_offset" (array __u8 0)
    ◂ bits "pkt_type" __u8 3
    ◂ bits "ignore_df" __u8 1
    ◂ bits "dst_pending_confirm" __u8 1
    ◂ bits "ip_summed" __u8 2
    ◂ bits "ooo_okay" __u8 1
    ◂ field "__mono_tc_offset" (array __u8 0)
    ◂ bits "tstamp_type" __u8 2
    ◂ bits "tc_at_ingress" __u8 1
    ◂ bits "tc_skip_classify" __u8 1
    ◂ bits "remcsum_offload" __u8 1
    ◂ bits "csum_complete_sw" __u8 1
    ◂ bits "csum_level" __u8 2
    ◂ bits "inner_protocol_type" __u8 1
    ◂ bits "l4_hash" __u8 1
    ◂ bits "sw_hash" __u8 1
    ◂ bits "wifi_acked_valid" __u8 1
    ◂ bits "wifi_acked" __u8 1
    ◂ bits "no_fcs" __u8 1
    ◂ bits "encapsulation" __u8 1
    ◂ bits "encap_hdr_csum" __u8 1
    ◂ bits "csum_valid" __u8 1
    ◂ bits "ndisc_nodetype" __u8 2
    ◂ bits "ipvs_property" __u8 1
    ◂ bits "nf_trace" __u8 1
    ◂ bits "offload_fwd_mark" __u8 1
    ◂ bits "offload_l3_fwd_mark" __u8 1
    ◂ bits "redirected" __u8 1
    ◂ bits "from_ingress" __u8 1
    ◂ bits "nf_skip_egress" __u8 1
    ◂ bits "decrypted" __u8 1
    ◂ bits "slow_gro" __u8 1
    ◂ bits "csum_not_inet" __u8 1
    ◂ field "tc_index" __u16
    ◂ field "alloc_cpu" u16
    ◂ inline (
        union_of (
          field "csum" __wsum
          ◂ inline (struct_of (field "csum_start" __u16 ◂ field "csum_offset" __u16 ◂ end))
          ◂ end))
    ◂ field "priority" __u32
    ◂ field "skb_iif" (signed 4)
    ◂ field "hash" __u32
    ◂ inline (
        union_of (
          field "vlan_all" u32
          ◂ inline (struct_of (field "vlan_proto" __be16 ◂ field "vlan_tci" __u16 ◂ end))
          ◂ end))
    ◂ inline (union_of (field "napi_id" (unsigned 4) ◂ field "sender_cpu" (unsigned 4) ◂ end))
    ◂ field "secmark" __u32
    ◂ inline (union_of (field "mark" __u32 ◂ field "reserved_tailroom" __u32 ◂ end))
    ◂ inline (union_of (field "inner_protocol" __be16 ◂ field "inner_ipproto" __u8 ◂ end))
    ◂ field "inner_transport_header" __u16
    ◂ field "inner_network_header" __u16
    ◂ field "inner_mac_header" __u16
    ◂ field "protocol" __be16
    ◂ field "transport_header" __u16
    ◂ field "network_header" __u16
    ◂ field "mac_header" __u16
    ◂ end)

abbrev pub sk_buff_pkt_type_fields : CType
sk_buff_pkt_type_fields = union_of (inline sk_buff_pkt_type ◂ field "headers" sk_buff_headers ◂ end)

abbrev pub sk_buff : CType
sk_buff = struct_of (
    inline (
      union_of (
        inline (
          struct_of (
            field "next" (pointer "struct sk_buff")
            ◂ field "prev" (pointer "struct sk_buff")
            ◂ inline (
                union_of (
                  field "dev" (pointer "struct net_device")
                  ◂ field "dev_scratch" (unsigned 8)
                  ◂ end))
            ◂ end))
        ◂ field "rbnode" rb_node
        ◂ field "list" list_head
        ◂ field "ll_node" llist_node
        ◂ end))
    ◂ field "sk" (pointer "struct sock")
    ◂ inline (union_of (field "tstamp" ktime_t ◂ field "skb_mstamp_ns" u64 ◂ end))
    ◂ field "cb" (array (signed 1) 48)
    ◂ inline (
        union_of (
          inline (
            struct_of (
              field "_skb_refdst" (unsigned 8)
              ◂ field "destructor" (pointer "void (struct sk_buff *)")
              ◂ end))
          ◂ field "tcp_tsorted_anchor" list_head
          ◂ field "_sk_redir" (unsigned 8)
          ◂ end))
    ◂ field "_nfct" (unsigned 8)
    ◂ field "len" (unsigned 4)
    ◂ field "data_len" (unsigned 4)
    ◂ field "mac_len" __u16
    ◂ field "hdr_len" __u16
    ◂ field "queue_mapping" __u16
    ◂ field "__cloned_offset" (array __u8 0)
    ◂ bits "cloned" __u8 1
    ◂ bits "nohdr" __u8 1
    ◂ bits "fclone" __u8 2
    ◂ bits "peeked" __u8 1
    ◂ bits "head_frag" __u8 1
    ◂ bits "pfmemalloc" __u8 1
    ◂ bits "pp_recycle" __u8 1
    ◂ field "active_extensions" __u8
    ◂ inline sk_buff_pkt_type_fields
    ◂ field "tail" sk_buff_data_t
    ◂ field "end" sk_buff_data_t
    ◂ field "head" (pointer "unsigned char")
    ◂ field "data" (pointer "unsigned char")
    ◂ field "truesize" (unsigned 4)
    ◂ field "users" refcount_t
    ◂ field "extensions" (pointer "struct skb_ext")
    ◂ end)
