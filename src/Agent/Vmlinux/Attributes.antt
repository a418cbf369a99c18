-- ===== src/Agent/Vmlinux/Attributes.antt =====
-- agent/vmlinux.h: the argument of the system call `bpf`.
use kubezonnet.Agent.Layout.{CType, struct_of, union_of, field, inline, end, ◌◂◌}
use kubezonnet.Agent.Vmlinux.Scalars.{__u32, __u64}
use kubezonnet.Agent.Vmlinux.Commands.{
  bpf_attr_map_type, bpf_attr_map_fd, bpf_attr_batch, bpf_attr_prog_type, bpf_attr_pathname,
  bpf_attr_target_fd, bpf_attr_test, bpf_attr_start_id_fields, bpf_attr_query, bpf_attr_btf,
  bpf_attr_task_fd_query, bpf_attr_link_create, bpf_attr_link_update,
}

abbrev pub bpf_attr : CType
bpf_attr = union_of (
    inline bpf_attr_map_type
    ◂ inline bpf_attr_map_fd
    ◂ field "batch" bpf_attr_batch
    ◂ inline bpf_attr_prog_type
    ◂ inline bpf_attr_pathname
    ◂ inline bpf_attr_target_fd
    ◂ field "test" bpf_attr_test
    ◂ inline bpf_attr_start_id_fields
    ◂ field "info"
        (struct_of (field "bpf_fd" __u32 ◂ field "info_len" __u32 ◂ field "info" __u64 ◂ end))
    ◂ field "query" bpf_attr_query
    ◂ field "raw_tracepoint"
        (struct_of (field "name" __u64 ◂ field "prog_fd" __u32 ◂ field "cookie" __u64 ◂ end))
    ◂ inline bpf_attr_btf
    ◂ field "task_fd_query" bpf_attr_task_fd_query
    ◂ field "link_create" bpf_attr_link_create
    ◂ field "link_update" bpf_attr_link_update
    ◂ field "link_detach" (struct_of (field "link_fd" __u32 ◂ end))
    ◂ field "enable_stats" (struct_of (field "type" __u32 ◂ end))
    ◂ field "iter_create" (struct_of (field "link_fd" __u32 ◂ field "flags" __u32 ◂ end))
    ◂ field "prog_bind_map"
        (struct_of (field "prog_fd" __u32 ◂ field "map_fd" __u32 ◂ field "flags" __u32 ◂ end))
    ◂ field "token_create" (struct_of (field "flags" __u32 ◂ field "bpffs_fd" __u32 ◂ end))
    ◂ end)
