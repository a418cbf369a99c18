-- ===== src/Agent/Vmlinux/Hooks.antt =====
-- agent/vmlinux.h: netfilter hooks and the context of a program that is attached to one.
use kubezonnet.Agent.Layout.{
  CType, signed, unsigned, pointer, enumeration, array, struct_of, field, bits, end, ◌◂◌,
}
use kubezonnet.Agent.Vmlinux.Scalars.{u16, u8}

abbrev pub nf_hook_state : CType
nf_hook_state = struct_of (
    field "hook" u8
    ◂ field "pf" u8
    ◂ field "in" (pointer "struct net_device")
    ◂ field "out" (pointer "struct net_device")
    ◂ field "sk" (pointer "struct sock")
    ◂ field "net" (pointer "struct net")
    ◂ field "okfn" (pointer "int (struct net *, struct sock *, struct sk_buff *)")
    ◂ end)

abbrev pub bpf_nf_ctx : CType
bpf_nf_ctx = struct_of (
    field "state" (pointer "const struct nf_hook_state")
    ◂ field "skb" (pointer "struct sk_buff")
    ◂ end)

abbrev pub nf_hook_entry : CType
nf_hook_entry = struct_of (field "hook" (pointer "nf_hookfn") ◂ field "priv" (pointer "void") ◂ end)

abbrev pub nf_hook_entries : CType
nf_hook_entries =
    struct_of (field "num_hook_entries" u16 ◂ field "hooks" (array nf_hook_entry 0) ◂ end)

abbrev pub nf_hook_ops : CType
nf_hook_ops = struct_of (
    field "hook" (pointer "nf_hookfn")
    ◂ field "dev" (pointer "struct net_device")
    ◂ field "priv" (pointer "void")
    ◂ field "pf" u8
    ◂ bits "hook_ops_type" (enumeration "nf_hook_ops_type") 8
    ◂ field "hooknum" (unsigned 4)
    ◂ field "priority" (signed 4)
    ◂ end)
