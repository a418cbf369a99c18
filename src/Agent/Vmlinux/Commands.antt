-- ===== src/Agent/Vmlinux/Commands.antt =====
-- agent/vmlinux.h: the arguments of the commands of the system call `bpf`, one by one.
use kubezonnet.Agent.Layout.{CType, signed, array, struct_of, union_of, field, inline, end, ◌◂◌}
use kubezonnet.Agent.Vmlinux.Scalars.{__s32, __u32, __u64}

abbrev pub bpf_attr_map_type : CType
bpf_attr_map_type = struct_of (
    field "map_type" __u32
    ◂ field "key_size" __u32
    ◂ field "value_size" __u32
    ◂ field "max_entries" __u32
    ◂ field "map_flags" __u32
    ◂ field "inner_map_fd" __u32
    ◂ field "numa_node" __u32
    ◂ field "map_name" (array (signed 1) 16)
    ◂ field "map_ifindex" __u32
    ◂ field "btf_fd" __u32
    ◂ field "btf_key_type_id" __u32
    ◂ field "btf_value_type_id" __u32
    ◂ field "btf_vmlinux_value_type_id" __u32
    ◂ field "map_extra" __u64
    ◂ field "value_type_btf_obj_fd" __s32
    ◂ field "map_token_fd" __s32
    ◂ end)

abbrev pub bpf_attr_map_fd : CType
bpf_attr_map_fd = struct_of (
    field "map_fd" __u32
    ◂ field "key" __u64
    ◂ inline (union_of (field "value" __u64 ◂ field "next_key" __u64 ◂ end))
    ◂ field "flags" __u64
    ◂ end)

abbrev pub bpf_attr_batch : CType
bpf_attr_batch = struct_of (
    field "in_batch" __u64
    ◂ field "out_batch" __u64
    ◂ field "keys" __u64
    ◂ field "values" __u64
    ◂ field "count" __u32
    ◂ field "map_fd" __u32
    ◂ field "elem_flags" __u64
    ◂ field "flags" __u64
    ◂ end)

abbrev pub bpf_attr_prog_type : CType
bpf_attr_prog_type = struct_of (
    field "prog_type" __u32
    ◂ field "insn_cnt" __u32
    ◂ field "insns" __u64
    ◂ field "license" __u64
    ◂ field "log_level" __u32
    ◂ field "log_size" __u32
    ◂ field "log_buf" __u64
    ◂ field "kern_version" __u32
    ◂ field "prog_flags" __u32
    ◂ field "prog_name" (array (signed 1) 16)
    ◂ field "prog_ifindex" __u32
    ◂ field "expected_attach_type" __u32
    ◂ field "prog_btf_fd" __u32
    ◂ field "func_info_rec_size" __u32
    ◂ field "func_info" __u64
    ◂ field "func_info_cnt" __u32
    ◂ field "line_info_rec_size" __u32
    ◂ field "line_info" __u64
    ◂ field "line_info_cnt" __u32
    ◂ field "attach_btf_id" __u32
    ◂ inline (union_of (field "attach_prog_fd" __u32 ◂ field "attach_btf_obj_fd" __u32 ◂ end))
    ◂ field "core_relo_cnt" __u32
    ◂ field "fd_array" __u64
    ◂ field "core_relos" __u64
    ◂ field "core_relo_rec_size" __u32
    ◂ field "log_true_size" __u32
    ◂ field "prog_token_fd" __s32
    ◂ end)

abbrev pub bpf_attr_pathname : CType
bpf_attr_pathname = struct_of (
    field "pathname" __u64
    ◂ field "bpf_fd" __u32
    ◂ field "file_flags" __u32
    ◂ field "path_fd" __s32
    ◂ end)

abbrev pub bpf_attr_target_fd : CType
bpf_attr_target_fd = struct_of (
    inline (union_of (field "target_fd" __u32 ◂ field "target_ifindex" __u32 ◂ end))
    ◂ field "attach_bpf_fd" __u32
    ◂ field "attach_type" __u32
    ◂ field "attach_flags" __u32
    ◂ field "replace_bpf_fd" __u32
    ◂ inline (union_of (field "relative_fd" __u32 ◂ field "relative_id" __u32 ◂ end))
    ◂ field "expected_revision" __u64
    ◂ end)

abbrev pub bpf_attr_test : CType
bpf_attr_test = struct_of (
    field "prog_fd" __u32
    ◂ field "retval" __u32
    ◂ field "data_size_in" __u32
    ◂ field "data_size_out" __u32
    ◂ field "data_in" __u64
    ◂ field "data_out" __u64
    ◂ field "repeat" __u32
    ◂ field "duration" __u32
    ◂ field "ctx_size_in" __u32
    ◂ field "ctx_size_out" __u32
    ◂ field "ctx_in" __u64
    ◂ field "ctx_out" __u64
    ◂ field "flags" __u32
    ◂ field "cpu" __u32
    ◂ field "batch_size" __u32
    ◂ end)

abbrev pub bpf_attr_start_id : CType
bpf_attr_start_id = union_of (
    field "start_id" __u32
    ◂ field "prog_id" __u32
    ◂ field "map_id" __u32
    ◂ field "btf_id" __u32
    ◂ field "link_id" __u32
    ◂ end)

abbrev pub bpf_attr_start_id_fields : CType
bpf_attr_start_id_fields =
    struct_of (inline bpf_attr_start_id ◂ field "next_id" __u32 ◂ field "open_flags" __u32 ◂ end)

abbrev pub bpf_attr_query : CType
bpf_attr_query = struct_of (
    inline (union_of (field "target_fd" __u32 ◂ field "target_ifindex" __u32 ◂ end))
    ◂ field "attach_type" __u32
    ◂ field "query_flags" __u32
    ◂ field "attach_flags" __u32
    ◂ field "prog_ids" __u64
    ◂ inline (union_of (field "prog_cnt" __u32 ◂ field "count" __u32 ◂ end))
    ◂ field "prog_attach_flags" __u64
    ◂ field "link_ids" __u64
    ◂ field "link_attach_flags" __u64
    ◂ field "revision" __u64
    ◂ end)

abbrev pub bpf_attr_btf : CType
bpf_attr_btf = struct_of (
    field "btf" __u64
    ◂ field "btf_log_buf" __u64
    ◂ field "btf_size" __u32
    ◂ field "btf_log_size" __u32
    ◂ field "btf_log_level" __u32
    ◂ field "btf_log_true_size" __u32
    ◂ field "btf_flags" __u32
    ◂ field "btf_token_fd" __s32
    ◂ end)

abbrev pub bpf_attr_task_fd_query : CType
bpf_attr_task_fd_query = struct_of (
    field "pid" __u32
    ◂ field "fd" __u32
    ◂ field "flags" __u32
    ◂ field "buf_len" __u32
    ◂ field "buf" __u64
    ◂ field "prog_id" __u32
    ◂ field "fd_type" __u32
    ◂ field "probe_offset" __u64
    ◂ field "probe_addr" __u64
    ◂ end)

abbrev pub bpf_attr_kprobe_multi : CType
bpf_attr_kprobe_multi = struct_of (
    field "flags" __u32
    ◂ field "cnt" __u32
    ◂ field "syms" __u64
    ◂ field "addrs" __u64
    ◂ field "cookies" __u64
    ◂ end)

abbrev pub bpf_attr_netfilter : CType
bpf_attr_netfilter =
    struct_of (
      field "pf" __u32 ◂ field "hooknum" __u32 ◂ field "priority" __s32 ◂ field "flags" __u32 ◂ end)

abbrev pub bpf_attr_tcx : CType
bpf_attr_tcx = struct_of (
    inline (union_of (field "relative_fd" __u32 ◂ field "relative_id" __u32 ◂ end))
    ◂ field "expected_revision" __u64
    ◂ end)

abbrev pub bpf_attr_uprobe_multi : CType
bpf_attr_uprobe_multi = struct_of (
    field "path" __u64
    ◂ field "offsets" __u64
    ◂ field "ref_ctr_offsets" __u64
    ◂ field "cookies" __u64
    ◂ field "cnt" __u32
    ◂ field "flags" __u32
    ◂ field "pid" __u32
    ◂ end)

abbrev pub bpf_attr_netkit : CType
bpf_attr_netkit = struct_of (
    inline (union_of (field "relative_fd" __u32 ◂ field "relative_id" __u32 ◂ end))
    ◂ field "expected_revision" __u64
    ◂ end)

abbrev pub bpf_attr_target_btf_id : CType
bpf_attr_target_btf_id = union_of (
    field "target_btf_id" __u32
    ◂ inline (struct_of (field "iter_info" __u64 ◂ field "iter_info_len" __u32 ◂ end))
    ◂ field "perf_event" (struct_of (field "bpf_cookie" __u64 ◂ end))
    ◂ field "kprobe_multi" bpf_attr_kprobe_multi
    ◂ field "tracing" (struct_of (field "target_btf_id" __u32 ◂ field "cookie" __u64 ◂ end))
    ◂ field "netfilter" bpf_attr_netfilter
    ◂ field "tcx" bpf_attr_tcx
    ◂ field "uprobe_multi" bpf_attr_uprobe_multi
    ◂ field "netkit" bpf_attr_netkit
    ◂ end)

abbrev pub bpf_attr_link_create : CType
bpf_attr_link_create = struct_of (
    inline (union_of (field "prog_fd" __u32 ◂ field "map_fd" __u32 ◂ end))
    ◂ inline (union_of (field "target_fd" __u32 ◂ field "target_ifindex" __u32 ◂ end))
    ◂ field "attach_type" __u32
    ◂ field "flags" __u32
    ◂ inline bpf_attr_target_btf_id
    ◂ end)

abbrev pub bpf_attr_link_update : CType
bpf_attr_link_update = struct_of (
    field "link_fd" __u32
    ◂ inline (union_of (field "new_prog_fd" __u32 ◂ field "new_map_fd" __u32 ◂ end))
    ◂ field "flags" __u32
    ◂ inline (union_of (field "old_prog_fd" __u32 ◂ field "old_map_fd" __u32 ◂ end))
    ◂ end)
