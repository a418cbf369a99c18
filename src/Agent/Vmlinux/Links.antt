-- ===== src/Agent/Vmlinux/Links.antt =====
-- agent/vmlinux.h: links between a program and what it is attached to, and functions that it may
-- call.
use kubezonnet.Agent.Layout.{
  CType, pointer, enumeration, array, struct_of, union_of, field, inline, end, ◌◂◌,
}
use kubezonnet.Agent.Vmlinux.Hooks.{nf_hook_ops}
use kubezonnet.Agent.Vmlinux.Maps.{work_struct}
use kubezonnet.Agent.Vmlinux.Scalars.{bool, size_t, u32}
use kubezonnet.Agent.Vmlinux.SocketParts.{atomic64_t, callback_head}
use kubezonnet.Agent.Vmlinux.Sockets.{netns_tracker}

abbrev pub bpf_link : CType
bpf_link = struct_of (
    field "refcnt" atomic64_t
    ◂ field "id" u32
    ◂ field "type" (enumeration "bpf_link_type")
    ◂ field "ops" (pointer "const struct bpf_link_ops")
    ◂ field "prog" (pointer "struct bpf_prog")
    ◂ inline (union_of (field "rcu" callback_head ◂ field "work" work_struct ◂ end))
    ◂ end)

abbrev pub bpf_link_ops : CType
bpf_link_ops = struct_of (
    field "release" (pointer "void (struct bpf_link *)")
    ◂ field "dealloc" (pointer "void (struct bpf_link *)")
    ◂ field "dealloc_deferred" (pointer "void (struct bpf_link *)")
    ◂ field "detach" (pointer "int (struct bpf_link *)")
    ◂ field "update_prog" (pointer "int (struct bpf_link *, struct bpf_prog *, struct bpf_prog *)")
    ◂ field "show_fdinfo" (pointer "void (const struct bpf_link *, struct seq_file *)")
    ◂ field "fill_link_info" (pointer "int (const struct bpf_link *, struct bpf_link_info *)")
    ◂ field "update_map" (pointer "int (struct bpf_link *, struct bpf_map *, struct bpf_map *)")
    ◂ field "poll" (pointer "__poll_t (struct file *, struct poll_table_struct *)")
    ◂ end)

abbrev pub bpf_nf_link : CType
bpf_nf_link = struct_of (
    field "link" bpf_link
    ◂ field "hook_ops" nf_hook_ops
    ◂ field "ns_tracker" netns_tracker
    ◂ field "net" (pointer "struct net")
    ◂ field "dead" u32
    ◂ field "defrag_hook" (pointer "const struct nf_defrag_hook")
    ◂ end)

abbrev pub bpf_func_proto : CType
bpf_func_proto = struct_of (
    field "func" (pointer "u64 (u64, u64, u64, u64, u64)")
    ◂ field "gpl_only" bool
    ◂ field "pkt_access" bool
    ◂ field "might_sleep" bool
    ◂ field "ret_type" (enumeration "bpf_return_type")
    ◂ inline (
        union_of (
          inline (
            struct_of (
              field "arg1_type" (enumeration "bpf_arg_type")
              ◂ field "arg2_type" (enumeration "bpf_arg_type")
              ◂ field "arg3_type" (enumeration "bpf_arg_type")
              ◂ field "arg4_type" (enumeration "bpf_arg_type")
              ◂ field "arg5_type" (enumeration "bpf_arg_type")
              ◂ end))
          ◂ field "arg_type" (array (enumeration "bpf_arg_type") 5)
          ◂ end))
    ◂ inline (
        union_of (
          inline (
            struct_of (
              field "arg1_btf_id" (pointer "u32")
              ◂ field "arg2_btf_id" (pointer "u32")
              ◂ field "arg3_btf_id" (pointer "u32")
              ◂ field "arg4_btf_id" (pointer "u32")
              ◂ field "arg5_btf_id" (pointer "u32")
              ◂ end))
          ◂ field "arg_btf_id" (array (pointer "u32") 5)
          ◂ inline (
              struct_of (
                field "arg1_size" size_t
                ◂ field "arg2_size" size_t
                ◂ field "arg3_size" size_t
                ◂ field "arg4_size" size_t
                ◂ field "arg5_size" size_t
                ◂ end))
          ◂ field "arg_size" (array size_t 5)
          ◂ end))
    ◂ field "ret_btf_id" (pointer "int")
    ◂ field "allowed" (pointer "bool (const struct bpf_prog *)")
    ◂ end)
