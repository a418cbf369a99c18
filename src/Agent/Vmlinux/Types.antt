-- ===== src/Agent/Vmlinux/Types.antt =====
-- agent/vmlinux.h: all structs and unions that the other files declare, and where their members lie.
use kubezonnet.Prelude.{
  ℕ, ◌+◌, ◌*◌, ◌%◌, ◌≤◌, ◌≡◌, refl, String, List, [], ◌∷◌, some, Bool, true, ◌&&◌, get_elem?, zero,
  suc, arith,
}
use kubezonnet.Agent.Layout.{CType, align_of, size_of, Slot, member_of}
use kubezonnet.Agent.Layout.Sized.{is_size, is_sized}
use kubezonnet.Agent.Layout.Inside.{member_of-inside, size_of-aligned}
use kubezonnet.Agent.Vmlinux.Headers.{iphdr, in6_addr, ipv6hdr, tcphdr, udphdr, ethhdr, icmphdr}
use kubezonnet.Agent.Vmlinux.Buffers.{
  rb_node, list_head, llist_node, atomic_t, refcount_struct, sk_buff,
}
use kubezonnet.Agent.Vmlinux.Views.{
  __sk_buff, skb_shared_hwtstamps, xsk_tx_metadata_compl, skb_frag, skb_shared_info,
}
use kubezonnet.Agent.Vmlinux.Hooks.{
  nf_hook_state, bpf_nf_ctx, nf_hook_entry, nf_hook_entries, nf_hook_ops,
}
use kubezonnet.Agent.Vmlinux.SocketParts.{
  hlist_node, possible_net_t, atomic64_t, hlist_nulls_node, sock_common, qspinlock, raw_spinlock,
  spinlock, wait_queue_head, socket_lock_t, sk_buff_list, sk_buff_head, qrwlock, rwlock_t,
  timer_list, page_frag, seqcount, seqcount_spinlock, seqlock_t, callback_head,
}
use kubezonnet.Agent.Vmlinux.Sockets.{rb_root, kuid_t, sock_cgroup_data, netns_tracker, sock}
use kubezonnet.Agent.Vmlinux.Routes.{rcuref_t, netdevice_tracker, dst_entry, hh_cache, neighbour}
use kubezonnet.Agent.Vmlinux.Maps.{
  bpf_dynptr, bpf_dynptr_kern, optimistic_spin_queue, mutex, work_struct, bpf_map, bpf_map_ops,
}
use kubezonnet.Agent.Vmlinux.Tables.{
  bpf_mem_alloc, pcpu_freelist_head, pcpu_freelist, bpf_lru_list, bpf_common_lru, bpf_lru,
  percpu_counter, lock_class_key, bpf_htab,
}
use kubezonnet.Agent.Vmlinux.Programs.{
  sock_filter, bpf_insn, bpf_prog, latch_tree_node, bpf_ksym, bpf_prog_aux,
}
use kubezonnet.Agent.Vmlinux.Links.{bpf_link, bpf_link_ops, bpf_nf_link, bpf_func_proto}
use kubezonnet.Agent.Vmlinux.Attributes.{bpf_attr}
use kubezonnet.Agent.Vmlinux.Info.{bpf_link_info, bpf_map_info, bpf_prog_info}

abbrev pub kernel_types : List CType
kernel_types =
    iphdr ∷ in6_addr ∷ ipv6hdr ∷ tcphdr ∷ udphdr ∷ ethhdr ∷ icmphdr ∷ rb_node ∷ list_head
    ∷ llist_node ∷ atomic_t ∷ refcount_struct ∷ sk_buff ∷ __sk_buff ∷ skb_shared_hwtstamps
    ∷ xsk_tx_metadata_compl ∷ skb_frag ∷ skb_shared_info ∷ nf_hook_state ∷ bpf_nf_ctx
    ∷ nf_hook_entry ∷ nf_hook_entries ∷ nf_hook_ops ∷ hlist_node ∷ possible_net_t ∷ atomic64_t
    ∷ hlist_nulls_node ∷ sock_common ∷ qspinlock ∷ raw_spinlock ∷ spinlock ∷ wait_queue_head
    ∷ socket_lock_t ∷ sk_buff_list ∷ sk_buff_head ∷ qrwlock ∷ rwlock_t ∷ timer_list ∷ page_frag
    ∷ seqcount ∷ seqcount_spinlock ∷ seqlock_t ∷ callback_head ∷ rb_root ∷ kuid_t ∷ sock_cgroup_data
    ∷ netns_tracker ∷ sock ∷ rcuref_t ∷ netdevice_tracker ∷ dst_entry ∷ hh_cache ∷ neighbour
    ∷ bpf_dynptr ∷ bpf_dynptr_kern ∷ optimistic_spin_queue ∷ mutex ∷ work_struct ∷ bpf_map
    ∷ bpf_map_ops ∷ bpf_mem_alloc ∷ pcpu_freelist_head ∷ pcpu_freelist ∷ bpf_lru_list
    ∷ bpf_common_lru ∷ bpf_lru ∷ percpu_counter ∷ lock_class_key ∷ bpf_htab ∷ sock_filter ∷ bpf_insn
    ∷ bpf_prog ∷ latch_tree_node ∷ bpf_ksym ∷ bpf_prog_aux ∷ bpf_link ∷ bpf_link_ops ∷ bpf_nf_link
    ∷ bpf_func_proto ∷ bpf_attr ∷ bpf_link_info ∷ bpf_map_info ∷ bpf_prog_info ∷ []

all_sized : List CType → Bool
all_sized [] = true
all_sized (t ∷ ts) = is_sized t && all_sized ts

all_sized_sound :
    (ts : List CType) (i : ℕ) (t : CType)
    → all_sized ts ≡ true
    → get_elem? ts i ≡ some t
    → is_sized t ≡ true
unfolding all_sized
all_sized_sound [] i t h e = ground arith
all_sized_sound (u ∷ ts) zero t h e = ground arith
all_sized_sound (u ∷ ts) (suc i) t h e = all_sized_sound ts i t (ground arith) e

kernel_types-sized : all_sized kernel_types ≡ true
unfolding all_sized is_sized size_of
kernel_types-sized = refl

pub kernel_types-is_sized :
    (i : ℕ) (t : CType) → get_elem? kernel_types i ≡ some t → is_sized t ≡ true
kernel_types-is_sized i t listed = all_sized_sound kernel_types i t kernel_types-sized listed

-- In each of the declared types a member, also one of a member without a name, lies inside the
-- object; the size of the type is a multiple of its alignment, which is 1, 2, 4 or 8.
pub kernel_types-inside :
    (i : ℕ) (t : CType) (name : String) (s : Slot)
    → get_elem? kernel_types i ≡ some t
    → member_of t name ≡ some s
    → (s.first + s.width ≤ 8 * size_of t)
      × (size_of t % align_of t ≡ 0)
      × (is_size (align_of t) ≡ true)
kernel_types-inside i t name s listed e =
    let sized = kernel_types-is_sized i t listed in
    let aligned = size_of-aligned t sized in
    (member_of-inside t name s sized e, aligned.1, aligned.0)
