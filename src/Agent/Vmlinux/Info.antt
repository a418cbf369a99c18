-- ===== src/Agent/Vmlinux/Info.antt =====
-- agent/vmlinux.h: what the kernel tells about maps, programs and links.
use kubezonnet.Agent.Layout.{
  CType, signed, array, struct_of, union_of, field, bits, inline, end, ◌◂◌,
}
use kubezonnet.Agent.Vmlinux.Scalars.{__s32, __u32, __u64, __u8}

abbrev pub bpf_link_info_cgroup : CType
bpf_link_info_cgroup = union_of (
    field "cgroup" (struct_of (field "cgroup_id" __u64 ◂ field "order" __u32 ◂ end))
    ◂ field "task" (struct_of (field "tid" __u32 ◂ field "pid" __u32 ◂ end))
    ◂ end)

abbrev pub bpf_link_info_iter : CType
bpf_link_info_iter = struct_of (
    field "target_name" __u64
    ◂ field "target_name_len" __u32
    ◂ inline (union_of (field "map" (struct_of (field "map_id" __u32 ◂ end)) ◂ end))
    ◂ inline bpf_link_info_cgroup
    ◂ end)

abbrev pub bpf_link_info_netfilter : CType
bpf_link_info_netfilter =
    struct_of (
      field "pf" __u32 ◂ field "hooknum" __u32 ◂ field "priority" __s32 ◂ field "flags" __u32 ◂ end)

abbrev pub bpf_link_info_kprobe_multi : CType
bpf_link_info_kprobe_multi = struct_of (
    field "addrs" __u64
    ◂ field "count" __u32
    ◂ field "flags" __u32
    ◂ field "missed" __u64
    ◂ field "cookies" __u64
    ◂ end)

abbrev pub bpf_link_info_uprobe_multi : CType
bpf_link_info_uprobe_multi = struct_of (
    field "path" __u64
    ◂ field "offsets" __u64
    ◂ field "ref_ctr_offsets" __u64
    ◂ field "cookies" __u64
    ◂ field "path_size" __u32
    ◂ field "count" __u32
    ◂ field "flags" __u32
    ◂ field "pid" __u32
    ◂ end)

abbrev pub bpf_link_info_uprobe : CType
bpf_link_info_uprobe = struct_of (
    field "file_name" __u64
    ◂ field "name_len" __u32
    ◂ field "offset" __u32
    ◂ field "cookie" __u64
    ◂ end)

abbrev pub bpf_link_info_kprobe : CType
bpf_link_info_kprobe = struct_of (
    field "func_name" __u64
    ◂ field "name_len" __u32
    ◂ field "offset" __u32
    ◂ field "addr" __u64
    ◂ field "missed" __u64
    ◂ field "cookie" __u64
    ◂ end)

abbrev pub bpf_link_info_uprobe_fields : CType
bpf_link_info_uprobe_fields = union_of (
    field "uprobe" bpf_link_info_uprobe
    ◂ field "kprobe" bpf_link_info_kprobe
    ◂ field "tracepoint"
        (struct_of (field "tp_name" __u64 ◂ field "name_len" __u32 ◂ field "cookie" __u64 ◂ end))
    ◂ field "event"
        (struct_of (field "config" __u64 ◂ field "type" __u32 ◂ field "cookie" __u64 ◂ end))
    ◂ end)

abbrev pub bpf_link_info_perf_event : CType
bpf_link_info_perf_event = struct_of (field "type" __u32 ◂ inline bpf_link_info_uprobe_fields ◂ end)

abbrev pub bpf_link_info_raw_tracepoint : CType
bpf_link_info_raw_tracepoint = union_of (
    field "raw_tracepoint" (struct_of (field "tp_name" __u64 ◂ field "tp_name_len" __u32 ◂ end))
    ◂ field "tracing" (
        struct_of (
          field "attach_type" __u32
          ◂ field "target_obj_id" __u32
          ◂ field "target_btf_id" __u32
          ◂ end))
    ◂ field "cgroup" (struct_of (field "cgroup_id" __u64 ◂ field "attach_type" __u32 ◂ end))
    ◂ field "iter" bpf_link_info_iter
    ◂ field "netns" (struct_of (field "netns_ino" __u32 ◂ field "attach_type" __u32 ◂ end))
    ◂ field "xdp" (struct_of (field "ifindex" __u32 ◂ end))
    ◂ field "struct_ops" (struct_of (field "map_id" __u32 ◂ end))
    ◂ field "netfilter" bpf_link_info_netfilter
    ◂ field "kprobe_multi" bpf_link_info_kprobe_multi
    ◂ field "uprobe_multi" bpf_link_info_uprobe_multi
    ◂ field "perf_event" bpf_link_info_perf_event
    ◂ field "tcx" (struct_of (field "ifindex" __u32 ◂ field "attach_type" __u32 ◂ end))
    ◂ field "netkit" (struct_of (field "ifindex" __u32 ◂ field "attach_type" __u32 ◂ end))
    ◂ field "sockmap" (struct_of (field "map_id" __u32 ◂ field "attach_type" __u32 ◂ end))
    ◂ end)

abbrev pub bpf_link_info : CType
bpf_link_info = struct_of (
    field "type" __u32
    ◂ field "id" __u32
    ◂ field "prog_id" __u32
    ◂ inline bpf_link_info_raw_tracepoint
    ◂ end)

abbrev pub bpf_map_info : CType
bpf_map_info = struct_of (
    field "type" __u32
    ◂ field "id" __u32
    ◂ field "key_size" __u32
    ◂ field "value_size" __u32
    ◂ field "max_entries" __u32
    ◂ field "map_flags" __u32
    ◂ field "name" (array (signed 1) 16)
    ◂ field "ifindex" __u32
    ◂ field "btf_vmlinux_value_type_id" __u32
    ◂ field "netns_dev" __u64
    ◂ field "netns_ino" __u64
    ◂ field "btf_id" __u32
    ◂ field "btf_key_type_id" __u32
    ◂ field "btf_value_type_id" __u32
    ◂ field "btf_vmlinux_id" __u32
    ◂ field "map_extra" __u64
    ◂ end)

abbrev pub bpf_prog_info : CType
bpf_prog_info = struct_of (
    field "type" __u32
    ◂ field "id" __u32
    ◂ field "tag" (array __u8 8)
    ◂ field "jited_prog_len" __u32
    ◂ field "xlated_prog_len" __u32
    ◂ field "jited_prog_insns" __u64
    ◂ field "xlated_prog_insns" __u64
    ◂ field "load_time" __u64
    ◂ field "created_by_uid" __u32
    ◂ field "nr_map_ids" __u32
    ◂ field "map_ids" __u64
    ◂ field "name" (array (signed 1) 16)
    ◂ field "ifindex" __u32
    ◂ bits "gpl_compatible" __u32 1
    ◂ field "netns_dev" __u64
    ◂ field "netns_ino" __u64
    ◂ field "nr_jited_ksyms" __u32
    ◂ field "nr_jited_func_lens" __u32
    ◂ field "jited_ksyms" __u64
    ◂ field "jited_func_lens" __u64
    ◂ field "btf_id" __u32
    ◂ field "func_info_rec_size" __u32
    ◂ field "func_info" __u64
    ◂ field "nr_func_info" __u32
    ◂ field "nr_line_info" __u32
    ◂ field "line_info" __u64
    ◂ field "jited_line_info" __u64
    ◂ field "nr_jited_line_info" __u32
    ◂ field "line_info_rec_size" __u32
    ◂ field "jited_line_info_rec_size" __u32
    ◂ field "nr_prog_tags" __u32
    ◂ field "prog_tags" __u64
    ◂ field "run_time_ns" __u64
    ◂ field "run_cnt" __u64
    ◂ field "recursion_misses" __u64
    ◂ field "verified_insns" __u32
    ◂ field "attach_btf_obj_id" __u32
    ◂ field "attach_btf_id" __u32
    ◂ end)
