-- ===== src/Agent/Vmlinux/Protocols.antt =====
-- agent/vmlinux.h: the protocols of IPv4, the families and the hooks of netfilter.
use kubezonnet.Prelude.{[], ◌∷◌}
use kubezonnet.Agent.Enumeration.{Enumeration}

abbrev pub ipproto : Enumeration
ipproto =
    ("IPPROTO_IP", 0)
    ∷ ("IPPROTO_ICMP", 1)
    ∷ ("IPPROTO_IGMP", 2)
    ∷ ("IPPROTO_IPIP", 4)
    ∷ ("IPPROTO_TCP", 6)
    ∷ ("IPPROTO_EGP", 8)
    ∷ ("IPPROTO_PUP", 12)
    ∷ ("IPPROTO_UDP", 17)
    ∷ ("IPPROTO_IDP", 22)
    ∷ ("IPPROTO_TP", 29)
    ∷ ("IPPROTO_DCCP", 33)
    ∷ ("IPPROTO_IPV6", 41)
    ∷ ("IPPROTO_RSVP", 46)
    ∷ ("IPPROTO_GRE", 47)
    ∷ ("IPPROTO_ESP", 50)
    ∷ ("IPPROTO_AH", 51)
    ∷ ("IPPROTO_MTP", 92)
    ∷ ("IPPROTO_BEETPH", 94)
    ∷ ("IPPROTO_ENCAP", 98)
    ∷ ("IPPROTO_PIM", 103)
    ∷ ("IPPROTO_COMP", 108)
    ∷ ("IPPROTO_L2TP", 115)
    ∷ ("IPPROTO_SCTP", 132)
    ∷ ("IPPROTO_UDPLITE", 136)
    ∷ ("IPPROTO_MPLS", 137)
    ∷ ("IPPROTO_ETHERNET", 143)
    ∷ ("IPPROTO_RAW", 255)
    ∷ ("IPPROTO_SMC", 256)
    ∷ ("IPPROTO_MPTCP", 262)
    ∷ ("IPPROTO_MAX", 263)
    ∷ []

abbrev pub nf_inet_hooks : Enumeration
nf_inet_hooks =
    ("NF_INET_PRE_ROUTING", 0)
    ∷ ("NF_INET_LOCAL_IN", 1)
    ∷ ("NF_INET_FORWARD", 2)
    ∷ ("NF_INET_LOCAL_OUT", 3)
    ∷ ("NF_INET_POST_ROUTING", 4)
    ∷ ("NF_INET_NUMHOOKS", 5)
    ∷ ("NF_INET_INGRESS", 5)
    ∷ []

abbrev pub nfproto : Enumeration
nfproto =
    ("NFPROTO_UNSPEC", 0)
    ∷ ("NFPROTO_INET", 1)
    ∷ ("NFPROTO_IPV4", 2)
    ∷ ("NFPROTO_ARP", 3)
    ∷ ("NFPROTO_NETDEV", 5)
    ∷ ("NFPROTO_BRIDGE", 7)
    ∷ ("NFPROTO_IPV6", 10)
    ∷ ("NFPROTO_NUMPROTO", 11)
    ∷ []
