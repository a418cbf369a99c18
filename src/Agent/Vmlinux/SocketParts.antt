-- ===== src/Agent/Vmlinux/SocketParts.antt =====
-- agent/vmlinux.h: the part that all kinds of sockets share, and the parts of a socket.
use kubezonnet.Agent.Layout.{
  CType, signed, unsigned, pointer, array, struct_of, union_of, field, bits, inline, end, ◌◂◌,
}
use kubezonnet.Agent.Vmlinux.Buffers.{atomic_t, list_head, refcount_t}
use kubezonnet.Agent.Vmlinux.Headers.{in6_addr}
use kubezonnet.Agent.Vmlinux.Scalars.{
  __addrpair, __be16, __be32, __portpair, __u16, __u32, s64, u16, u32, u8,
}

abbrev pub hlist_node : CType
hlist_node = struct_of (
    field "next" (pointer "struct hlist_node")
    ◂ field "pprev" (pointer "struct hlist_node *")
    ◂ end)

abbrev pub possible_net_t : CType
possible_net_t = struct_of (field "net" (pointer "struct net") ◂ end)

abbrev pub atomic64_t : CType
atomic64_t = struct_of (field "counter" s64 ◂ end)

abbrev pub hlist_nulls_node : CType
hlist_nulls_node = struct_of (
    field "next" (pointer "struct hlist_nulls_node")
    ◂ field "pprev" (pointer "struct hlist_nulls_node *")
    ◂ end)

abbrev pub sock_common : CType
sock_common = struct_of (
    inline (
      union_of (
        field "skc_addrpair" __addrpair
        ◂ inline (struct_of (field "skc_daddr" __be32 ◂ field "skc_rcv_saddr" __be32 ◂ end))
        ◂ end))
    ◂ inline
        (union_of (field "skc_hash" (unsigned 4) ◂ field "skc_u16hashes" (array __u16 2) ◂ end))
    ◂ inline (
        union_of (
          field "skc_portpair" __portpair
          ◂ inline (struct_of (field "skc_dport" __be16 ◂ field "skc_num" __u16 ◂ end))
          ◂ end))
    ◂ field "skc_family" (unsigned 2)
    ◂ field "skc_state" (unsigned 1)
    ◂ bits "skc_reuse" (unsigned 1) 4
    ◂ bits "skc_reuseport" (unsigned 1) 1
    ◂ bits "skc_ipv6only" (unsigned 1) 1
    ◂ bits "skc_net_refcnt" (unsigned 1) 1
    ◂ field "skc_bound_dev_if" (signed 4)
    ◂ inline
        (union_of (field "skc_bind_node" hlist_node ◂ field "skc_portaddr_node" hlist_node ◂ end))
    ◂ field "skc_prot" (pointer "struct proto")
    ◂ field "skc_net" possible_net_t
    ◂ field "skc_v6_daddr" in6_addr
    ◂ field "skc_v6_rcv_saddr" in6_addr
    ◂ field "skc_cookie" atomic64_t
    ◂ inline (
        union_of (
          field "skc_flags" (unsigned 8)
          ◂ field "skc_listener" (pointer "struct sock")
          ◂ field "skc_tw_dr" (pointer "struct inet_timewait_death_row")
          ◂ end))
    ◂ field "skc_dontcopy_begin" (array (signed 4) 0)
    ◂ inline
        (union_of (field "skc_node" hlist_node ◂ field "skc_nulls_node" hlist_nulls_node ◂ end))
    ◂ field "skc_tx_queue_mapping" (unsigned 2)
    ◂ field "skc_rx_queue_mapping" (unsigned 2)
    ◂ inline (
        union_of (
          field "skc_incoming_cpu" (signed 4)
          ◂ field "skc_rcv_wnd" u32
          ◂ field "skc_tw_rcv_nxt" u32
          ◂ end))
    ◂ field "skc_refcnt" refcount_t
    ◂ field "skc_dontcopy_end" (array (signed 4) 0)
    ◂ inline (
        union_of (
          field "skc_rxhash" u32 ◂ field "skc_window_clamp" u32 ◂ field "skc_tw_snd_nxt" u32 ◂ end))
    ◂ end)

abbrev pub qspinlock : CType
qspinlock = struct_of (
    inline (
      union_of (
        field "val" atomic_t
        ◂ inline (struct_of (field "locked" u8 ◂ field "pending" u8 ◂ end))
        ◂ inline (struct_of (field "locked_pending" u16 ◂ field "tail" u16 ◂ end))
        ◂ end))
    ◂ end)

abbrev pub arch_spinlock_t : CType
arch_spinlock_t = qspinlock

abbrev pub raw_spinlock : CType
raw_spinlock = struct_of (field "raw_lock" arch_spinlock_t ◂ end)

abbrev pub spinlock : CType
spinlock = struct_of (inline (union_of (field "rlock" raw_spinlock ◂ end)) ◂ end)

abbrev pub spinlock_t : CType
spinlock_t = spinlock

abbrev pub wait_queue_head : CType
wait_queue_head = struct_of (field "lock" spinlock_t ◂ field "head" list_head ◂ end)

abbrev pub wait_queue_head_t : CType
wait_queue_head_t = wait_queue_head

abbrev pub socket_lock_t : CType
socket_lock_t =
    struct_of
      (field "slock" spinlock_t ◂ field "owned" (signed 4) ◂ field "wq" wait_queue_head_t ◂ end)

abbrev pub sk_buff_list : CType
sk_buff_list =
    struct_of
      (field "next" (pointer "struct sk_buff") ◂ field "prev" (pointer "struct sk_buff") ◂ end)

abbrev pub sk_buff_head : CType
sk_buff_head = struct_of (
    inline (
      union_of (
        inline (
          struct_of (
            field "next" (pointer "struct sk_buff")
            ◂ field "prev" (pointer "struct sk_buff")
            ◂ end))
        ◂ field "list" sk_buff_list
        ◂ end))
    ◂ field "qlen" __u32
    ◂ field "lock" spinlock_t
    ◂ end)

abbrev pub qrwlock : CType
qrwlock = struct_of (
    inline (
      union_of (
        field "cnts" atomic_t
        ◂ inline (struct_of (field "wlocked" u8 ◂ field "__lstate" (array u8 3) ◂ end))
        ◂ end))
    ◂ field "wait_lock" arch_spinlock_t
    ◂ end)

abbrev pub arch_rwlock_t : CType
arch_rwlock_t = qrwlock

abbrev pub rwlock_t : CType
rwlock_t = struct_of (field "raw_lock" arch_rwlock_t ◂ end)

abbrev pub timer_list : CType
timer_list = struct_of (
    field "entry" hlist_node
    ◂ field "expires" (unsigned 8)
    ◂ field "function" (pointer "void (struct timer_list *)")
    ◂ field "flags" u32
    ◂ end)

abbrev pub page_frag : CType
page_frag =
    struct_of
      (field "page" (pointer "struct page") ◂ field "offset" __u32 ◂ field "size" __u32 ◂ end)

abbrev pub seqcount : CType
seqcount = struct_of (field "sequence" (unsigned 4) ◂ end)

abbrev pub seqcount_t : CType
seqcount_t = seqcount

abbrev pub seqcount_spinlock : CType
seqcount_spinlock = struct_of (field "seqcount" seqcount_t ◂ end)

abbrev pub seqcount_spinlock_t : CType
seqcount_spinlock_t = seqcount_spinlock

abbrev pub seqlock_t : CType
seqlock_t = struct_of (field "seqcount" seqcount_spinlock_t ◂ field "lock" spinlock_t ◂ end)

abbrev pub callback_head : CType
callback_head = struct_of (
    field "next" (pointer "struct callback_head")
    ◂ field "func" (pointer "void (struct callback_head *)")
    ◂ end)
