-- ===== src/Agent/Vmlinux/Tables.antt =====
-- agent/vmlinux.h: the hash table behind a map.
use kubezonnet.Agent.Layout.{
  CType, signed, unsigned, pointer, array, struct_of, union_of, field, inline, padding, end, ◌◂◌,
}
use kubezonnet.Agent.Vmlinux.Buffers.{atomic_t, list_head}
use kubezonnet.Agent.Vmlinux.Maps.{bpf_map, raw_spinlock_t, work_struct}
use kubezonnet.Agent.Vmlinux.Scalars.{bool, del_from_htab_func, s64, u32}

abbrev pub bpf_mem_alloc : CType
bpf_mem_alloc = struct_of (
    field "caches" (pointer "struct bpf_mem_caches")
    ◂ field "cache" (pointer "struct bpf_mem_cache")
    ◂ field "objcg" (pointer "struct obj_cgroup")
    ◂ field "percpu" bool
    ◂ field "work" work_struct
    ◂ end)

abbrev pub pcpu_freelist_head : CType
pcpu_freelist_head =
    struct_of
      (field "first" (pointer "struct pcpu_freelist_node") ◂ field "lock" raw_spinlock_t ◂ end)

abbrev pub pcpu_freelist : CType
pcpu_freelist = struct_of (
    field "freelist" (pointer "struct pcpu_freelist_head")
    ◂ field "extralist" pcpu_freelist_head
    ◂ end)

abbrev pub bpf_lru_list : CType
bpf_lru_list = struct_of (
    field "lists" (array list_head 3)
    ◂ field "counts" (array (unsigned 4) 2)
    ◂ field "next_inactive_rotation" (pointer "struct list_head")
    ◂ field "lock" raw_spinlock_t
    ◂ padding (signed 8) 64
    ◂ padding (signed 8) 64
    ◂ padding (signed 8) 64
    ◂ padding (signed 8) 64
    ◂ padding (signed 8) 64
    ◂ padding (signed 8) 64
    ◂ padding (signed 8) 64
    ◂ end)

abbrev pub bpf_common_lru : CType
bpf_common_lru = struct_of (
    field "lru_list" bpf_lru_list
    ◂ field "local_list" (pointer "struct bpf_lru_locallist")
    ◂ padding (signed 8) 64
    ◂ padding (signed 8) 64
    ◂ padding (signed 8) 64
    ◂ padding (signed 8) 64
    ◂ padding (signed 8) 64
    ◂ padding (signed 8) 64
    ◂ padding (signed 8) 64
    ◂ end)

abbrev pub bpf_lru : CType
bpf_lru = struct_of (
    inline (
      union_of (
        field "common_lru" bpf_common_lru
        ◂ field "percpu_lru" (pointer "struct bpf_lru_list")
        ◂ end))
    ◂ field "del_from_htab" del_from_htab_func
    ◂ field "del_arg" (pointer "void")
    ◂ field "hash_offset" (unsigned 4)
    ◂ field "nr_scans" (unsigned 4)
    ◂ field "percpu" bool
    ◂ padding (signed 8) 64
    ◂ padding (signed 8) 64
    ◂ padding (signed 8) 64
    ◂ padding (signed 8) 64
    ◂ end)

abbrev pub percpu_counter : CType
percpu_counter = struct_of (
    field "lock" raw_spinlock_t
    ◂ field "count" s64
    ◂ field "list" list_head
    ◂ field "counters" (pointer "s32")
    ◂ end)

abbrev pub lock_class_key : CType
lock_class_key = struct_of (end)

abbrev pub bpf_htab : CType
bpf_htab = struct_of (
    field "map" bpf_map
    ◂ field "ma" bpf_mem_alloc
    ◂ field "pcpu_ma" bpf_mem_alloc
    ◂ field "buckets" (pointer "struct bucket")
    ◂ field "elems" (pointer "void")
    ◂ padding (signed 8) 64
    ◂ padding (signed 8) 64
    ◂ padding (signed 8) 64
    ◂ padding (signed 8) 64
    ◂ padding (signed 8) 64
    ◂ padding (signed 8) 64
    ◂ padding (signed 8) 64
    ◂ inline (union_of (field "freelist" pcpu_freelist ◂ field "lru" bpf_lru ◂ end))
    ◂ field "extra_elems" (pointer "struct htab_elem *")
    ◂ field "pcount" percpu_counter
    ◂ field "count" atomic_t
    ◂ field "use_percpu_counter" bool
    ◂ field "n_buckets" u32
    ◂ field "elem_size" u32
    ◂ field "hashrnd" u32
    ◂ field "lockdep_key" lock_class_key
    ◂ field "map_locked" (array (pointer "int") 8)
    ◂ padding (signed 8) 64
    ◂ padding (signed 8) 64
    ◂ padding (signed 8) 64
    ◂ padding (signed 8) 64
    ◂ padding (signed 8) 64
    ◂ padding (signed 8) 64
    ◂ padding (signed 8) 64
    ◂ end)
