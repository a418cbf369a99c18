-- ===== src/Agent/Vmlinux/Maps.antt =====
-- agent/vmlinux.h: maps of eBPF programs and dynptrs.
use kubezonnet.Agent.Layout.{
  CType, signed, pointer, enumeration, array, struct_of, union_of, field, inline, end, ◌◂◌,
}
use kubezonnet.Agent.Vmlinux.Buffers.{atomic_t, list_head}
use kubezonnet.Agent.Vmlinux.Scalars.{__u64, bool, u32, u64, work_func_t}
use kubezonnet.Agent.Vmlinux.SocketParts.{atomic64_t, callback_head, raw_spinlock, spinlock_t}

abbrev pub bpf_dynptr : CType
bpf_dynptr = struct_of (field "__opaque" (array __u64 2) ◂ end)

abbrev pub bpf_dynptr_kern : CType
bpf_dynptr_kern =
    struct_of (field "data" (pointer "void") ◂ field "size" u32 ◂ field "offset" u32 ◂ end)

abbrev pub atomic_long_t : CType
atomic_long_t = atomic64_t

abbrev pub raw_spinlock_t : CType
raw_spinlock_t = raw_spinlock

abbrev pub optimistic_spin_queue : CType
optimistic_spin_queue = struct_of (field "tail" atomic_t ◂ end)

abbrev pub mutex : CType
mutex = struct_of (
    field "owner" atomic_long_t
    ◂ field "wait_lock" raw_spinlock_t
    ◂ field "osq" optimistic_spin_queue
    ◂ field "wait_list" list_head
    ◂ end)

abbrev pub work_struct : CType
work_struct =
    struct_of
      (field "data" atomic_long_t ◂ field "entry" list_head ◂ field "func" work_func_t ◂ end)

abbrev pub bpf_map : CType
bpf_map = struct_of (
    field "ops" (pointer "const struct bpf_map_ops")
    ◂ field "inner_map_meta" (pointer "struct bpf_map")
    ◂ field "security" (pointer "void")
    ◂ field "map_type" (enumeration "bpf_map_type")
    ◂ field "key_size" u32
    ◂ field "value_size" u32
    ◂ field "max_entries" u32
    ◂ field "map_extra" u64
    ◂ field "map_flags" u32
    ◂ field "id" u32
    ◂ field "record" (pointer "struct btf_record")
    ◂ field "numa_node" (signed 4)
    ◂ field "btf_key_type_id" u32
    ◂ field "btf_value_type_id" u32
    ◂ field "btf_vmlinux_value_type_id" u32
    ◂ field "btf" (pointer "struct btf")
    ◂ field "objcg" (pointer "struct obj_cgroup")
    ◂ field "name" (array (signed 1) 16)
    ◂ field "freeze_mutex" mutex
    ◂ field "refcnt" atomic64_t
    ◂ field "usercnt" atomic64_t
    ◂ inline (union_of (field "work" work_struct ◂ field "rcu" callback_head ◂ end))
    ◂ field "writecnt" atomic64_t
    ◂ field "owner" (
        struct_of (
          field "attach_func_proto" (pointer "const struct btf_type")
          ◂ field "lock" spinlock_t
          ◂ field "type" (enumeration "bpf_prog_type")
          ◂ field "jited" bool
          ◂ field "xdp_has_frags" bool
          ◂ end))
    ◂ field "bypass_spec_v1" bool
    ◂ field "frozen" bool
    ◂ field "free_after_mult_rcu_gp" bool
    ◂ field "free_after_rcu_gp" bool
    ◂ field "sleepable_refcnt" atomic64_t
    ◂ field "elem_count" (pointer "s64")
    ◂ end)

abbrev pub bpf_map_ops : CType
bpf_map_ops = struct_of (
    field "map_alloc_check" (pointer "int (union bpf_attr *)")
    ◂ field "map_alloc" (pointer "struct bpf_map * (union bpf_attr *)")
    ◂ field "map_release" (pointer "void (struct bpf_map *, struct file *)")
    ◂ field "map_free" (pointer "void (struct bpf_map *)")
    ◂ field "map_get_next_key" (pointer "int (struct bpf_map *, void *, void *)")
    ◂ field "map_release_uref" (pointer "void (struct bpf_map *)")
    ◂ field "map_lookup_elem_sys_only" (pointer "void * (struct bpf_map *, void *)")
    ◂ field "map_lookup_batch"
        (pointer "int (struct bpf_map *, const union bpf_attr *, union bpf_attr *)")
    ◂ field "map_lookup_and_delete_elem" (pointer "int (struct bpf_map *, void *, void *, u64)")
    ◂ field "map_lookup_and_delete_batch"
        (pointer "int (struct bpf_map *, const union bpf_attr *, union bpf_attr *)")
    ◂ field "map_update_batch"
        (pointer "int (struct bpf_map *, struct file *, const union bpf_attr *, union bpf_attr *)")
    ◂ field "map_delete_batch"
        (pointer "int (struct bpf_map *, const union bpf_attr *, union bpf_attr *)")
    ◂ field "map_lookup_elem" (pointer "void * (struct bpf_map *, void *)")
    ◂ field "map_update_elem" (pointer "long int (struct bpf_map *, void *, void *, u64)")
    ◂ field "map_delete_elem" (pointer "long int (struct bpf_map *, void *)")
    ◂ field "map_push_elem" (pointer "long int (struct bpf_map *, void *, u64)")
    ◂ field "map_pop_elem" (pointer "long int (struct bpf_map *, void *)")
    ◂ field "map_peek_elem" (pointer "long int (struct bpf_map *, void *)")
    ◂ field "map_lookup_percpu_elem" (pointer "void * (struct bpf_map *, void *, u32)")
    ◂ field "map_fd_get_ptr" (pointer "void * (struct bpf_map *, struct file *, int)")
    ◂ field "map_fd_put_ptr" (pointer "void (struct bpf_map *, void *, bool)")
    ◂ field "map_gen_lookup" (pointer "int (struct bpf_map *, struct bpf_insn *)")
    ◂ field "map_fd_sys_lookup_elem" (pointer "u32 (void *)")
    ◂ field "map_seq_show_elem" (pointer "void (struct bpf_map *, void *, struct seq_file *)")
    ◂ field "map_check_btf" (
        pointer
          "int (const struct bpf_map *, const struct btf *, const struct btf_type *, const struct btf_type *)")
    ◂ field "map_poke_track" (pointer "int (struct bpf_map *, struct bpf_prog_aux *)")
    ◂ field "map_poke_untrack" (pointer "void (struct bpf_map *, struct bpf_prog_aux *)")
    ◂ field "map_poke_run"
        (pointer "void (struct bpf_map *, u32, struct bpf_prog *, struct bpf_prog *)")
    ◂ field "map_direct_value_addr" (pointer "int (const struct bpf_map *, u64 *, u32)")
    ◂ field "map_direct_value_meta" (pointer "int (const struct bpf_map *, u64, u32 *)")
    ◂ field "map_mmap" (pointer "int (struct bpf_map *, struct vm_area_struct *)")
    ◂ field "map_poll"
        (pointer "__poll_t (struct bpf_map *, struct file *, struct poll_table_struct *)")
    ◂ field "map_get_unmapped_area" (
        pointer
          "long unsigned int (struct file *, long unsigned int, long unsigned int, long unsigned int, long unsigned int)")
    ◂ field "map_local_storage_charge" (pointer "int (struct bpf_local_storage_map *, void *, u32)")
    ◂ field "map_local_storage_uncharge"
        (pointer "void (struct bpf_local_storage_map *, void *, u32)")
    ◂ field "map_owner_storage_ptr" (pointer "struct bpf_local_storage ** (void *)")
    ◂ field "map_redirect" (pointer "long int (struct bpf_map *, u64, u64)")
    ◂ field "map_meta_equal" (pointer "bool (const struct bpf_map *, const struct bpf_map *)")
    ◂ field "map_set_for_each_callback_args" (
        pointer "int (struct bpf_verifier_env *, struct bpf_func_state *, struct bpf_func_state *)")
    ◂ field "map_for_each_callback"
        (pointer "long int (struct bpf_map *, bpf_callback_t, void *, u64)")
    ◂ field "map_mem_usage" (pointer "u64 (const struct bpf_map *)")
    ◂ field "map_btf_id" (pointer "int")
    ◂ field "iter_seq_info" (pointer "const struct bpf_iter_seq_info")
    ◂ end)
