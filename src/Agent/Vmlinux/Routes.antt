-- ===== src/Agent/Vmlinux/Routes.antt =====
-- agent/vmlinux.h: routes and neighbours of a packet.
use kubezonnet.Agent.Layout.{
  CType, signed, unsigned, pointer, array, struct_of, field, padding, end, ◌◂◌,
}
use kubezonnet.Agent.Vmlinux.Buffers.{atomic_t, list_head, refcount_t}
use kubezonnet.Agent.Vmlinux.Scalars.{__u32, u32, u8}
use kubezonnet.Agent.Vmlinux.SocketParts.{
  callback_head, rwlock_t, seqlock_t, sk_buff_head, timer_list,
}

abbrev pub rcuref_t : CType
rcuref_t = struct_of (field "refcnt" atomic_t ◂ end)

abbrev pub netdevice_tracker : CType
netdevice_tracker = struct_of (end)

abbrev pub dst_entry : CType
dst_entry = struct_of (
    field "dev" (pointer "struct net_device")
    ◂ field "ops" (pointer "struct dst_ops")
    ◂ field "_metrics" (unsigned 8)
    ◂ field "expires" (unsigned 8)
    ◂ field "xfrm" (pointer "struct xfrm_state")
    ◂ field "input" (pointer "int (struct sk_buff *)")
    ◂ field "output" (pointer "int (struct net *, struct sock *, struct sk_buff *)")
    ◂ field "flags" (unsigned 2)
    ◂ field "obsolete" (signed 2)
    ◂ field "header_len" (unsigned 2)
    ◂ field "trailer_len" (unsigned 2)
    ◂ field "__rcuref" rcuref_t
    ◂ field "__use" (signed 4)
    ◂ field "lastuse" (unsigned 8)
    ◂ field "callback_head" callback_head
    ◂ field "error" (signed 2)
    ◂ field "__pad" (signed 2)
    ◂ field "tclassid" __u32
    ◂ field "dev_tracker" netdevice_tracker
    ◂ field "rt_uncached" list_head
    ◂ field "rt_uncached_list" (pointer "struct uncached_list")
    ◂ field "lwtstate" (pointer "struct lwtunnel_state")
    ◂ end)

abbrev pub hh_cache : CType
hh_cache = struct_of (
    field "hh_len" (unsigned 4)
    ◂ field "hh_lock" seqlock_t
    ◂ field "hh_data" (array (unsigned 8) 16)
    ◂ end)

abbrev pub neighbour : CType
neighbour = struct_of (
    field "next" (pointer "struct neighbour")
    ◂ field "tbl" (pointer "struct neigh_table")
    ◂ field "parms" (pointer "struct neigh_parms")
    ◂ field "confirmed" (unsigned 8)
    ◂ field "updated" (unsigned 8)
    ◂ field "lock" rwlock_t
    ◂ field "refcnt" refcount_t
    ◂ field "arp_queue_len_bytes" (unsigned 4)
    ◂ field "arp_queue" sk_buff_head
    ◂ field "timer" timer_list
    ◂ field "used" (unsigned 8)
    ◂ field "probes" atomic_t
    ◂ field "nud_state" u8
    ◂ field "type" u8
    ◂ field "dead" u8
    ◂ field "protocol" u8
    ◂ field "flags" u32
    ◂ field "ha_lock" seqlock_t
    ◂ padding (signed 8) 0
    ◂ field "ha" (array (unsigned 1) 32)
    ◂ field "hh" hh_cache
    ◂ field "output" (pointer "int (struct neighbour *, struct sk_buff *)")
    ◂ field "ops" (pointer "const struct neigh_ops")
    ◂ field "gc_list" list_head
    ◂ field "managed_list" list_head
    ◂ field "rcu" callback_head
    ◂ field "dev" (pointer "struct net_device")
    ◂ field "dev_tracker" netdevice_tracker
    ◂ field "primary_key" (array u8 0)
    ◂ end)
