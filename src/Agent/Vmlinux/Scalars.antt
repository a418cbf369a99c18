-- ===== src/Agent/Vmlinux/Scalars.antt =====
-- agent/vmlinux.h: the names that it gives to scalar types.
use kubezonnet.Agent.Layout.{CType, signed, unsigned, pointer}

abbrev pub __u8 : CType
__u8 = unsigned 1

abbrev pub __u16 : CType
__u16 = unsigned 2

abbrev pub __be16 : CType
__be16 = __u16

abbrev pub __sum16 : CType
__sum16 = __u16

abbrev pub __u32 : CType
__u32 = unsigned 4

abbrev pub __be32 : CType
__be32 = __u32

abbrev pub __s64 : CType
__s64 = signed 8

abbrev pub s64 : CType
s64 = __s64

abbrev pub ktime_t : CType
ktime_t = s64

abbrev pub __u64 : CType
__u64 = unsigned 8

abbrev pub u64 : CType
u64 = __u64

abbrev pub u16 : CType
u16 = __u16

abbrev pub __wsum : CType
__wsum = __u32

abbrev pub u32 : CType
u32 = __u32

abbrev pub sk_buff_data_t : CType
sk_buff_data_t = unsigned 4

abbrev pub netmem_ref : CType
netmem_ref = unsigned 8

abbrev pub u8 : CType
u8 = __u8

abbrev pub __addrpair : CType
__addrpair = __u64

abbrev pub __portpair : CType
__portpair = __u32

abbrev pub __s32 : CType
__s32 = signed 4

abbrev pub netdev_features_t : CType
netdev_features_t = u64

abbrev pub gfp_t : CType
gfp_t = unsigned 4

abbrev pub bool : CType
bool = unsigned 1

abbrev pub __kernel_uid32_t : CType
__kernel_uid32_t = unsigned 4

abbrev pub uid_t : CType
uid_t = __kernel_uid32_t

abbrev pub work_func_t : CType
work_func_t = pointer "void (struct work_struct *)"

abbrev pub del_from_htab_func : CType
del_from_htab_func = pointer "bool (void *, struct bpf_lru_node *)"

abbrev pub __s16 : CType
__s16 = signed 2

abbrev pub __kernel_ulong_t : CType
__kernel_ulong_t = unsigned 8

abbrev pub __kernel_size_t : CType
__kernel_size_t = __kernel_ulong_t

abbrev pub size_t : CType
size_t = __kernel_size_t
