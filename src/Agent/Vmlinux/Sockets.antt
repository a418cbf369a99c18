-- ===== src/Agent/Vmlinux/Sockets.antt =====
-- agent/vmlinux.h: sockets, of which a socket buffer names the owner.
use kubezonnet.Agent.Layout.{
  CType, signed, unsigned, pointer, array, struct_of, union_of, field, bits, inline, end, ◌◂◌,
}
use kubezonnet.Agent.Vmlinux.Buffers.{atomic_t, refcount_t}
use kubezonnet.Agent.Vmlinux.Scalars.{
  __s32, __u8, bool, gfp_t, ktime_t, netdev_features_t, u16, u32, u8, uid_t,
}
use kubezonnet.Agent.Vmlinux.SocketParts.{
  callback_head, page_frag, rwlock_t, sk_buff_head, sock_common, socket_lock_t, spinlock_t,
  timer_list,
}

abbrev pub rb_root : CType
rb_root = struct_of (field "rb_node" (pointer "struct rb_node") ◂ end)

abbrev pub kuid_t : CType
kuid_t = struct_of (field "val" uid_t ◂ end)

abbrev pub sock_cgroup_data : CType
sock_cgroup_data =
    struct_of
      (field "cgroup" (pointer "struct cgroup") ◂ field "classid" u32 ◂ field "prioidx" u16 ◂ end)

abbrev pub netns_tracker : CType
netns_tracker = struct_of (end)

abbrev pub sock_sk_backlog : CType
sock_sk_backlog = struct_of (
    field "rmem_alloc" atomic_t
    ◂ field "len" (signed 4)
    ◂ field "head" (pointer "struct sk_buff")
    ◂ field "tail" (pointer "struct sk_buff")
    ◂ end)

abbrev pub sock : CType
sock = struct_of (
    field "__sk_common" sock_common
    ◂ field "__cacheline_group_begin__sock_write_rx" (array __u8 0)
    ◂ field "sk_drops" atomic_t
    ◂ field "sk_peek_off" __s32
    ◂ field "sk_error_queue" sk_buff_head
    ◂ field "sk_receive_queue" sk_buff_head
    ◂ field "sk_backlog" sock_sk_backlog
    ◂ field "__cacheline_group_end__sock_write_rx" (array __u8 0)
    ◂ field "__cacheline_group_begin__sock_read_rx" (array __u8 0)
    ◂ field "sk_rx_dst" (pointer "struct dst_entry")
    ◂ field "sk_rx_dst_ifindex" (signed 4)
    ◂ field "sk_rx_dst_cookie" u32
    ◂ field "sk_ll_usec" (unsigned 4)
    ◂ field "sk_napi_id" (unsigned 4)
    ◂ field "sk_busy_poll_budget" u16
    ◂ field "sk_prefer_busy_poll" u8
    ◂ field "sk_userlocks" u8
    ◂ field "sk_rcvbuf" (signed 4)
    ◂ field "sk_filter" (pointer "struct sk_filter")
    ◂ inline (
        union_of (
          field "sk_wq" (pointer "struct socket_wq")
          ◂ field "sk_wq_raw" (pointer "struct socket_wq")
          ◂ end))
    ◂ field "sk_data_ready" (pointer "void (struct sock *)")
    ◂ field "sk_rcvtimeo" (signed 8)
    ◂ field "sk_rcvlowat" (signed 4)
    ◂ field "__cacheline_group_end__sock_read_rx" (array __u8 0)
    ◂ field "__cacheline_group_begin__sock_read_rxtx" (array __u8 0)
    ◂ field "sk_err" (signed 4)
    ◂ field "sk_socket" (pointer "struct socket")
    ◂ field "sk_memcg" (pointer "struct mem_cgroup")
    ◂ field "sk_policy" (array (pointer "struct xfrm_policy") 2)
    ◂ field "__cacheline_group_end__sock_read_rxtx" (array __u8 0)
    ◂ field "__cacheline_group_begin__sock_write_rxtx" (array __u8 0)
    ◂ field "sk_lock" socket_lock_t
    ◂ field "sk_reserved_mem" u32
    ◂ field "sk_forward_alloc" (signed 4)
    ◂ field "sk_tsflags" u32
    ◂ field "__cacheline_group_end__sock_write_rxtx" (array __u8 0)
    ◂ field "__cacheline_group_begin__sock_write_tx" (array __u8 0)
    ◂ field "sk_write_pending" (signed 4)
    ◂ field "sk_omem_alloc" atomic_t
    ◂ field "sk_sndbuf" (signed 4)
    ◂ field "sk_wmem_queued" (signed 4)
    ◂ field "sk_wmem_alloc" refcount_t
    ◂ field "sk_tsq_flags" (unsigned 8)
    ◂ inline (
        union_of
          (field "sk_send_head" (pointer "struct sk_buff") ◂ field "tcp_rtx_queue" rb_root ◂ end))
    ◂ field "sk_write_queue" sk_buff_head
    ◂ field "sk_dst_pending_confirm" u32
    ◂ field "sk_pacing_status" u32
    ◂ field "sk_frag" page_frag
    ◂ field "sk_timer" timer_list
    ◂ field "sk_pacing_rate" (unsigned 8)
    ◂ field "sk_zckey" atomic_t
    ◂ field "sk_tskey" atomic_t
    ◂ field "__cacheline_group_end__sock_write_tx" (array __u8 0)
    ◂ field "__cacheline_group_begin__sock_read_tx" (array __u8 0)
    ◂ field "sk_max_pacing_rate" (unsigned 8)
    ◂ field "sk_sndtimeo" (signed 8)
    ◂ field "sk_priority" u32
    ◂ field "sk_mark" u32
    ◂ field "sk_dst_cache" (pointer "struct dst_entry")
    ◂ field "sk_route_caps" netdev_features_t
    ◂ field "sk_validate_xmit_skb"
        (pointer "struct sk_buff * (struct sock *, struct net_device *, struct sk_buff *)")
    ◂ field "sk_gso_type" u16
    ◂ field "sk_gso_max_segs" u16
    ◂ field "sk_gso_max_size" (unsigned 4)
    ◂ field "sk_allocation" gfp_t
    ◂ field "sk_txhash" u32
    ◂ field "sk_pacing_shift" u8
    ◂ field "sk_use_task_frag" bool
    ◂ field "__cacheline_group_end__sock_read_tx" (array __u8 0)
    ◂ bits "sk_gso_disabled" u8 1
    ◂ bits "sk_kern_sock" u8 1
    ◂ bits "sk_no_check_tx" u8 1
    ◂ bits "sk_no_check_rx" u8 1
    ◂ field "sk_shutdown" u8
    ◂ field "sk_type" u16
    ◂ field "sk_protocol" u16
    ◂ field "sk_lingertime" (unsigned 8)
    ◂ field "sk_prot_creator" (pointer "struct proto")
    ◂ field "sk_callback_lock" rwlock_t
    ◂ field "sk_err_soft" (signed 4)
    ◂ field "sk_ack_backlog" u32
    ◂ field "sk_max_ack_backlog" u32
    ◂ field "sk_uid" kuid_t
    ◂ field "sk_peer_lock" spinlock_t
    ◂ field "sk_bind_phc" (signed 4)
    ◂ field "sk_peer_pid" (pointer "struct pid")
    ◂ field "sk_peer_cred" (pointer "const struct cred")
    ◂ field "sk_stamp" ktime_t
    ◂ field "sk_disconnects" (signed 4)
    ◂ field "sk_txrehash" u8
    ◂ field "sk_clockid" u8
    ◂ bits "sk_txtime_deadline_mode" u8 1
    ◂ bits "sk_txtime_report_errors" u8 1
    ◂ bits "sk_txtime_unused" u8 6
    ◂ field "sk_user_data" (pointer "void")
    ◂ field "sk_security" (pointer "void")
    ◂ field "sk_cgrp_data" sock_cgroup_data
    ◂ field "sk_state_change" (pointer "void (struct sock *)")
    ◂ field "sk_write_space" (pointer "void (struct sock *)")
    ◂ field "sk_error_report" (pointer "void (struct sock *)")
    ◂ field "sk_backlog_rcv" (pointer "int (struct sock *, struct sk_buff *)")
    ◂ field "sk_destruct" (pointer "void (struct sock *)")
    ◂ field "sk_reuseport_cb" (pointer "struct sock_reuseport")
    ◂ field "sk_bpf_storage" (pointer "struct bpf_local_storage")
    ◂ field "sk_rcu" callback_head
    ◂ field "ns_tracker" netns_tracker
    ◂ end)
