-- ===== src/Agent/Vmlinux/Kinds.antt =====
-- agent/vmlinux.h: the kinds of maps, programs, attachments and links, and the commands of the
-- system call `bpf`.
use kubezonnet.Prelude.{[], ◌∷◌}
use kubezonnet.Agent.Enumeration.{Enumeration}

abbrev pub bpf_map_type : Enumeration
bpf_map_type =
    ("BPF_MAP_TYPE_UNSPEC", 0)
    ∷ ("BPF_MAP_TYPE_HASH", 1)
    ∷ ("BPF_MAP_TYPE_ARRAY", 2)
    ∷ ("BPF_MAP_TYPE_PROG_ARRAY", 3)
    ∷ ("BPF_MAP_TYPE_PERF_EVENT_ARRAY", 4)
    ∷ ("BPF_MAP_TYPE_PERCPU_HASH", 5)
    ∷ ("BPF_MAP_TYPE_PERCPU_ARRAY", 6)
    ∷ ("BPF_MAP_TYPE_STACK_TRACE", 7)
    ∷ ("BPF_MAP_TYPE_CGROUP_ARRAY", 8)
    ∷ ("BPF_MAP_TYPE_LRU_HASH", 9)
    ∷ ("BPF_MAP_TYPE_LRU_PERCPU_HASH", 10)
    ∷ ("BPF_MAP_TYPE_LPM_TRIE", 11)
    ∷ ("BPF_MAP_TYPE_ARRAY_OF_MAPS", 12)
    ∷ ("BPF_MAP_TYPE_HASH_OF_MAPS", 13)
    ∷ ("BPF_MAP_TYPE_DEVMAP", 14)
    ∷ ("BPF_MAP_TYPE_SOCKMAP", 15)
    ∷ ("BPF_MAP_TYPE_CPUMAP", 16)
    ∷ ("BPF_MAP_TYPE_XSKMAP", 17)
    ∷ ("BPF_MAP_TYPE_SOCKHASH", 18)
    ∷ ("BPF_MAP_TYPE_CGROUP_STORAGE_DEPRECATED", 19)
    ∷ ("BPF_MAP_TYPE_CGROUP_STORAGE", 19)
    ∷ ("BPF_MAP_TYPE_REUSEPORT_SOCKARRAY", 20)
    ∷ ("BPF_MAP_TYPE_PERCPU_CGROUP_STORAGE_DEPRECATED", 21)
    ∷ ("BPF_MAP_TYPE_PERCPU_CGROUP_STORAGE", 21)
    ∷ ("BPF_MAP_TYPE_QUEUE", 22)
    ∷ ("BPF_MAP_TYPE_STACK", 23)
    ∷ ("BPF_MAP_TYPE_SK_STORAGE", 24)
    ∷ ("BPF_MAP_TYPE_DEVMAP_HASH", 25)
    ∷ ("BPF_MAP_TYPE_STRUCT_OPS", 26)
    ∷ ("BPF_MAP_TYPE_RINGBUF", 27)
    ∷ ("BPF_MAP_TYPE_INODE_STORAGE", 28)
    ∷ ("BPF_MAP_TYPE_TASK_STORAGE", 29)
    ∷ ("BPF_MAP_TYPE_BLOOM_FILTER", 30)
    ∷ ("BPF_MAP_TYPE_USER_RINGBUF", 31)
    ∷ ("BPF_MAP_TYPE_CGRP_STORAGE", 32)
    ∷ ("BPF_MAP_TYPE_ARENA", 33)
    ∷ ("__MAX_BPF_MAP_TYPE", 34)
    ∷ []

abbrev pub bpf_prog_type : Enumeration
bpf_prog_type =
    ("BPF_PROG_TYPE_UNSPEC", 0)
    ∷ ("BPF_PROG_TYPE_SOCKET_FILTER", 1)
    ∷ ("BPF_PROG_TYPE_KPROBE", 2)
    ∷ ("BPF_PROG_TYPE_SCHED_CLS", 3)
    ∷ ("BPF_PROG_TYPE_SCHED_ACT", 4)
    ∷ ("BPF_PROG_TYPE_TRACEPOINT", 5)
    ∷ ("BPF_PROG_TYPE_XDP", 6)
    ∷ ("BPF_PROG_TYPE_PERF_EVENT", 7)
    ∷ ("BPF_PROG_TYPE_CGROUP_SKB", 8)
    ∷ ("BPF_PROG_TYPE_CGROUP_SOCK", 9)
    ∷ ("BPF_PROG_TYPE_LWT_IN", 10)
    ∷ ("BPF_PROG_TYPE_LWT_OUT", 11)
    ∷ ("BPF_PROG_TYPE_LWT_XMIT", 12)
    ∷ ("BPF_PROG_TYPE_SOCK_OPS", 13)
    ∷ ("BPF_PROG_TYPE_SK_SKB", 14)
    ∷ ("BPF_PROG_TYPE_CGROUP_DEVICE", 15)
    ∷ ("BPF_PROG_TYPE_SK_MSG", 16)
    ∷ ("BPF_PROG_TYPE_RAW_TRACEPOINT", 17)
    ∷ ("BPF_PROG_TYPE_CGROUP_SOCK_ADDR", 18)
    ∷ ("BPF_PROG_TYPE_LWT_SEG6LOCAL", 19)
    ∷ ("BPF_PROG_TYPE_LIRC_MODE2", 20)
    ∷ ("BPF_PROG_TYPE_SK_REUSEPORT", 21)
    ∷ ("BPF_PROG_TYPE_FLOW_DISSECTOR", 22)
    ∷ ("BPF_PROG_TYPE_CGROUP_SYSCTL", 23)
    ∷ ("BPF_PROG_TYPE_RAW_TRACEPOINT_WRITABLE", 24)
    ∷ ("BPF_PROG_TYPE_CGROUP_SOCKOPT", 25)
    ∷ ("BPF_PROG_TYPE_TRACING", 26)
    ∷ ("BPF_PROG_TYPE_STRUCT_OPS", 27)
    ∷ ("BPF_PROG_TYPE_EXT", 28)
    ∷ ("BPF_PROG_TYPE_LSM", 29)
    ∷ ("BPF_PROG_TYPE_SK_LOOKUP", 30)
    ∷ ("BPF_PROG_TYPE_SYSCALL", 31)
    ∷ ("BPF_PROG_TYPE_NETFILTER", 32)
    ∷ ("__MAX_BPF_PROG_TYPE", 33)
    ∷ []

abbrev pub bpf_attach_type : Enumeration
bpf_attach_type =
    ("BPF_CGROUP_INET_INGRESS", 0)
    ∷ ("BPF_CGROUP_INET_EGRESS", 1)
    ∷ ("BPF_CGROUP_INET_SOCK_CREATE", 2)
    ∷ ("BPF_CGROUP_SOCK_OPS", 3)
    ∷ ("BPF_SK_SKB_STREAM_PARSER", 4)
    ∷ ("BPF_SK_SKB_STREAM_VERDICT", 5)
    ∷ ("BPF_CGROUP_DEVICE", 6)
    ∷ ("BPF_SK_MSG_VERDICT", 7)
    ∷ ("BPF_CGROUP_INET4_BIND", 8)
    ∷ ("BPF_CGROUP_INET6_BIND", 9)
    ∷ ("BPF_CGROUP_INET4_CONNECT", 10)
    ∷ ("BPF_CGROUP_INET6_CONNECT", 11)
    ∷ ("BPF_CGROUP_INET4_POST_BIND", 12)
    ∷ ("BPF_CGROUP_INET6_POST_BIND", 13)
    ∷ ("BPF_CGROUP_UDP4_SENDMSG", 14)
    ∷ ("BPF_CGROUP_UDP6_SENDMSG", 15)
    ∷ ("BPF_LIRC_MODE2", 16)
    ∷ ("BPF_FLOW_DISSECTOR", 17)
    ∷ ("BPF_CGROUP_SYSCTL", 18)
    ∷ ("BPF_CGROUP_UDP4_RECVMSG", 19)
    ∷ ("BPF_CGROUP_UDP6_RECVMSG", 20)
    ∷ ("BPF_CGROUP_GETSOCKOPT", 21)
    ∷ ("BPF_CGROUP_SETSOCKOPT", 22)
    ∷ ("BPF_TRACE_RAW_TP", 23)
    ∷ ("BPF_TRACE_FENTRY", 24)
    ∷ ("BPF_TRACE_FEXIT", 25)
    ∷ ("BPF_MODIFY_RETURN", 26)
    ∷ ("BPF_LSM_MAC", 27)
    ∷ ("BPF_TRACE_ITER", 28)
    ∷ ("BPF_CGROUP_INET4_GETPEERNAME", 29)
    ∷ ("BPF_CGROUP_INET6_GETPEERNAME", 30)
    ∷ ("BPF_CGROUP_INET4_GETSOCKNAME", 31)
    ∷ ("BPF_CGROUP_INET6_GETSOCKNAME", 32)
    ∷ ("BPF_XDP_DEVMAP", 33)
    ∷ ("BPF_CGROUP_INET_SOCK_RELEASE", 34)
    ∷ ("BPF_XDP_CPUMAP", 35)
    ∷ ("BPF_SK_LOOKUP", 36)
    ∷ ("BPF_XDP", 37)
    ∷ ("BPF_SK_SKB_VERDICT", 38)
    ∷ ("BPF_SK_REUSEPORT_SELECT", 39)
    ∷ ("BPF_SK_REUSEPORT_SELECT_OR_MIGRATE", 40)
    ∷ ("BPF_PERF_EVENT", 41)
    ∷ ("BPF_TRACE_KPROBE_MULTI", 42)
    ∷ ("BPF_LSM_CGROUP", 43)
    ∷ ("BPF_STRUCT_OPS", 44)
    ∷ ("BPF_NETFILTER", 45)
    ∷ ("BPF_TCX_INGRESS", 46)
    ∷ ("BPF_TCX_EGRESS", 47)
    ∷ ("BPF_TRACE_UPROBE_MULTI", 48)
    ∷ ("BPF_CGROUP_UNIX_CONNECT", 49)
    ∷ ("BPF_CGROUP_UNIX_SENDMSG", 50)
    ∷ ("BPF_CGROUP_UNIX_RECVMSG", 51)
    ∷ ("BPF_CGROUP_UNIX_GETPEERNAME", 52)
    ∷ ("BPF_CGROUP_UNIX_GETSOCKNAME", 53)
    ∷ ("BPF_NETKIT_PRIMARY", 54)
    ∷ ("BPF_NETKIT_PEER", 55)
    ∷ ("BPF_TRACE_KPROBE_SESSION", 56)
    ∷ ("__MAX_BPF_ATTACH_TYPE", 57)
    ∷ []

abbrev pub bpf_link_type : Enumeration
bpf_link_type =
    ("BPF_LINK_TYPE_UNSPEC", 0)
    ∷ ("BPF_LINK_TYPE_RAW_TRACEPOINT", 1)
    ∷ ("BPF_LINK_TYPE_TRACING", 2)
    ∷ ("BPF_LINK_TYPE_CGROUP", 3)
    ∷ ("BPF_LINK_TYPE_ITER", 4)
    ∷ ("BPF_LINK_TYPE_NETNS", 5)
    ∷ ("BPF_LINK_TYPE_XDP", 6)
    ∷ ("BPF_LINK_TYPE_PERF_EVENT", 7)
    ∷ ("BPF_LINK_TYPE_KPROBE_MULTI", 8)
    ∷ ("BPF_LINK_TYPE_STRUCT_OPS", 9)
    ∷ ("BPF_LINK_TYPE_NETFILTER", 10)
    ∷ ("BPF_LINK_TYPE_TCX", 11)
    ∷ ("BPF_LINK_TYPE_UPROBE_MULTI", 12)
    ∷ ("BPF_LINK_TYPE_NETKIT", 13)
    ∷ ("BPF_LINK_TYPE_SOCKMAP", 14)
    ∷ ("__MAX_BPF_LINK_TYPE", 15)
    ∷ []

abbrev pub bpf_cmd : Enumeration
bpf_cmd =
    ("BPF_MAP_CREATE", 0)
    ∷ ("BPF_MAP_LOOKUP_ELEM", 1)
    ∷ ("BPF_MAP_UPDATE_ELEM", 2)
    ∷ ("BPF_MAP_DELETE_ELEM", 3)
    ∷ ("BPF_MAP_GET_NEXT_KEY", 4)
    ∷ ("BPF_PROG_LOAD", 5)
    ∷ ("BPF_OBJ_PIN", 6)
    ∷ ("BPF_OBJ_GET", 7)
    ∷ ("BPF_PROG_ATTACH", 8)
    ∷ ("BPF_PROG_DETACH", 9)
    ∷ ("BPF_PROG_TEST_RUN", 10)
    ∷ ("BPF_PROG_RUN", 10)
    ∷ ("BPF_PROG_GET_NEXT_ID", 11)
    ∷ ("BPF_MAP_GET_NEXT_ID", 12)
    ∷ ("BPF_PROG_GET_FD_BY_ID", 13)
    ∷ ("BPF_MAP_GET_FD_BY_ID", 14)
    ∷ ("BPF_OBJ_GET_INFO_BY_FD", 15)
    ∷ ("BPF_PROG_QUERY", 16)
    ∷ ("BPF_RAW_TRACEPOINT_OPEN", 17)
    ∷ ("BPF_BTF_LOAD", 18)
    ∷ ("BPF_BTF_GET_FD_BY_ID", 19)
    ∷ ("BPF_TASK_FD_QUERY", 20)
    ∷ ("BPF_MAP_LOOKUP_AND_DELETE_ELEM", 21)
    ∷ ("BPF_MAP_FREEZE", 22)
    ∷ ("BPF_BTF_GET_NEXT_ID", 23)
    ∷ ("BPF_MAP_LOOKUP_BATCH", 24)
    ∷ ("BPF_MAP_LOOKUP_AND_DELETE_BATCH", 25)
    ∷ ("BPF_MAP_UPDATE_BATCH", 26)
    ∷ ("BPF_MAP_DELETE_BATCH", 27)
    ∷ ("BPF_LINK_CREATE", 28)
    ∷ ("BPF_LINK_UPDATE", 29)
    ∷ ("BPF_LINK_GET_FD_BY_ID", 30)
    ∷ ("BPF_LINK_GET_NEXT_ID", 31)
    ∷ ("BPF_ENABLE_STATS", 32)
    ∷ ("BPF_ITER_CREATE", 33)
    ∷ ("BPF_LINK_DETACH", 34)
    ∷ ("BPF_PROG_BIND_MAP", 35)
    ∷ ("BPF_TOKEN_CREATE", 36)
    ∷ ("__MAX_BPF_CMD", 37)
    ∷ []
