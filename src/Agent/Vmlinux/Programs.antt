-- ===== src/Agent/Vmlinux/Programs.antt =====
-- agent/vmlinux.h: loaded programs and their instructions.
use kubezonnet.Agent.Layout.{
  CType, signed, unsigned, pointer, enumeration, array, struct_of, union_of, field, bits, inline,
  end, ◌◂◌,
}
use kubezonnet.Agent.Vmlinux.Buffers.{list_head, rb_node}
use kubezonnet.Agent.Vmlinux.Maps.{mutex, work_struct}
use kubezonnet.Agent.Vmlinux.Scalars.{__s16, __s32, __u16, __u32, __u8, bool, u16, u32, u64, u8}
use kubezonnet.Agent.Vmlinux.SocketParts.{atomic64_t, callback_head}

abbrev pub sock_filter : CType
sock_filter =
    struct_of (field "code" __u16 ◂ field "jt" __u8 ◂ field "jf" __u8 ◂ field "k" __u32 ◂ end)

abbrev pub bpf_insn : CType
bpf_insn = struct_of (
    field "code" __u8
    ◂ bits "dst_reg" __u8 4
    ◂ bits "src_reg" __u8 4
    ◂ field "off" __s16
    ◂ field "imm" __s32
    ◂ end)

abbrev pub bpf_prog : CType
bpf_prog = struct_of (
    field "pages" u16
    ◂ bits "jited" u16 1
    ◂ bits "jit_requested" u16 1
    ◂ bits "gpl_compatible" u16 1
    ◂ bits "cb_access" u16 1
    ◂ bits "dst_needed" u16 1
    ◂ bits "blinding_requested" u16 1
    ◂ bits "blinded" u16 1
    ◂ bits "is_func" u16 1
    ◂ bits "kprobe_override" u16 1
    ◂ bits "has_callchain_buf" u16 1
    ◂ bits "enforce_expected_attach_type" u16 1
    ◂ bits "call_get_stack" u16 1
    ◂ bits "call_get_func_ip" u16 1
    ◂ bits "tstamp_type_access" u16 1
    ◂ bits "sleepable" u16 1
    ◂ field "type" (enumeration "bpf_prog_type")
    ◂ field "expected_attach_type" (enumeration "bpf_attach_type")
    ◂ field "len" u32
    ◂ field "jited_len" u32
    ◂ field "tag" (array u8 8)
    ◂ field "stats" (pointer "struct bpf_prog_stats")
    ◂ field "active" (pointer "int")
    ◂ field "bpf_func" (pointer "unsigned int (const void *, const struct bpf_insn *)")
    ◂ field "aux" (pointer "struct bpf_prog_aux")
    ◂ field "orig_prog" (pointer "struct sock_fprog_kern")
    ◂ inline (
        union_of (
          inline (
            struct_of
              (field "__empty_insns" (struct_of (end)) ◂ field "insns" (array sock_filter 0) ◂ end))
          ◂ inline (
              struct_of (
                field "__empty_insnsi" (struct_of (end)) ◂ field "insnsi" (array bpf_insn 0) ◂ end))
          ◂ end))
    ◂ end)

abbrev pub latch_tree_node : CType
latch_tree_node = struct_of (field "node" (array rb_node 2) ◂ end)

abbrev pub bpf_ksym : CType
bpf_ksym = struct_of (
    field "start" (unsigned 8)
    ◂ field "end" (unsigned 8)
    ◂ field "name" (array (signed 1) 512)
    ◂ field "lnode" list_head
    ◂ field "tnode" latch_tree_node
    ◂ field "prog" bool
    ◂ end)

abbrev pub bpf_prog_aux : CType
bpf_prog_aux = struct_of (
    field "refcnt" atomic64_t
    ◂ field "used_map_cnt" u32
    ◂ field "used_btf_cnt" u32
    ◂ field "max_ctx_offset" u32
    ◂ field "max_pkt_offset" u32
    ◂ field "max_tp_access" u32
    ◂ field "stack_depth" u32
    ◂ field "id" u32
    ◂ field "func_cnt" u32
    ◂ field "real_func_cnt" u32
    ◂ field "func_idx" u32
    ◂ field "attach_btf_id" u32
    ◂ field "ctx_arg_info_size" u32
    ◂ field "max_rdonly_access" u32
    ◂ field "max_rdwr_access" u32
    ◂ field "attach_btf" (pointer "struct btf")
    ◂ field "ctx_arg_info" (pointer "const struct bpf_ctx_arg_aux")
    ◂ field "dst_mutex" mutex
    ◂ field "dst_prog" (pointer "struct bpf_prog")
    ◂ field "dst_trampoline" (pointer "struct bpf_trampoline")
    ◂ field "saved_dst_prog_type" (enumeration "bpf_prog_type")
    ◂ field "saved_dst_attach_type" (enumeration "bpf_attach_type")
    ◂ field "verifier_zext" bool
    ◂ field "dev_bound" bool
    ◂ field "offload_requested" bool
    ◂ field "attach_btf_trace" bool
    ◂ field "attach_tracing_prog" bool
    ◂ field "func_proto_unreliable" bool
    ◂ field "tail_call_reachable" bool
    ◂ field "xdp_has_frags" bool
    ◂ field "exception_cb" bool
    ◂ field "exception_boundary" bool
    ◂ field "arena" (pointer "struct bpf_arena")
    ◂ field "attach_func_proto" (pointer "const struct btf_type")
    ◂ field "attach_func_name" (pointer "const char")
    ◂ field "func" (pointer "struct bpf_prog *")
    ◂ field "jit_data" (pointer "void")
    ◂ field "poke_tab" (pointer "struct bpf_jit_poke_descriptor")
    ◂ field "kfunc_tab" (pointer "struct bpf_kfunc_desc_tab")
    ◂ field "kfunc_btf_tab" (pointer "struct bpf_kfunc_btf_tab")
    ◂ field "size_poke_tab" u32
    ◂ field "ksym" bpf_ksym
    ◂ field "ops" (pointer "const struct bpf_prog_ops")
    ◂ field "used_maps" (pointer "struct bpf_map *")
    ◂ field "used_maps_mutex" mutex
    ◂ field "used_btfs" (pointer "struct btf_mod_pair")
    ◂ field "prog" (pointer "struct bpf_prog")
    ◂ field "user" (pointer "struct user_struct")
    ◂ field "load_time" u64
    ◂ field "verified_insns" u32
    ◂ field "cgroup_atype" (signed 4)
    ◂ field "cgroup_storage" (array (pointer "struct bpf_map") 2)
    ◂ field "name" (array (signed 1) 16)
    ◂ field "bpf_exception_cb" (pointer "u64 (u64, u64, u64, u64, u64)")
    ◂ field "security" (pointer "void")
    ◂ field "token" (pointer "struct bpf_token")
    ◂ field "offload" (pointer "struct bpf_prog_offload")
    ◂ field "btf" (pointer "struct btf")
    ◂ field "func_info" (pointer "struct bpf_func_info")
    ◂ field "func_info_aux" (pointer "struct bpf_func_info_aux")
    ◂ field "linfo" (pointer "struct bpf_line_info")
    ◂ field "jited_linfo" (pointer "void *")
    ◂ field "func_info_cnt" u32
    ◂ field "nr_linfo" u32
    ◂ field "linfo_idx" u32
    ◂ field "mod" (pointer "struct module")
    ◂ field "num_exentries" u32
    ◂ field "extable" (pointer "struct exception_table_entry")
    ◂ inline (union_of (field "work" work_struct ◂ field "rcu" callback_head ◂ end))
    ◂ end)
