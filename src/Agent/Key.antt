-- ===== src/Agent/Key.antt =====
-- The key of the eBPF map in memory: `struct ip_key` and `struct ip_value` of agent/kubezonnet.c, and
-- the bytes of a key, which the kernel compares and from which Go fills an `IPKey`.
use kubezonnet.Prelude.{
  ℕ, zero, suc, ◌/◌, ◌%◌, ◌^◌, ◌≡◌, refl, ap, List, [], ◌∷◌, ◌++◌, some, length, arith,
}
use kubezonnet.Payload.{IpKey}
use kubezonnet.Payload.RoundTrip.{IsKey}
use kubezonnet.Agent.Layout.{CType, struct_of, field, end, ◌◂◌, size_of, member_of}
use kubezonnet.Agent.Layout.Reads.{memory_of, read_member}
use kubezonnet.Agent.Vmlinux.Scalars.{__u16, __u32, __u64}

abbrev pub ip_key : CType
ip_key = struct_of (
    field "src_ip" __u32
    ◂ field "dest_ip" __u32
    ◂ field "src_port" __u16
    ◂ field "dest_port" __u16
    ◂ end)

abbrev pub ip_value : CType
ip_value = struct_of (field "packet_size" __u64 ◂ end)

-- `n` bytes of a number, the least significant one first.
abbrev pub le_bytes : ℕ → ℕ → List ℕ
le_bytes zero x = []
le_bytes (suc n) x = x % 2 ^ 8 ∷ le_bytes n (x / 2 ^ 8)

-- The variable `key` in memory.
abbrev pub key_bytes : IpKey → List ℕ
key_bytes key =
    le_bytes 4 key.src_ip
    ++ (le_bytes 4 key.dst_ip ++ (le_bytes 2 key.src_port ++ le_bytes 2 key.dst_port))

-- The bytes of a key, of which the fields fit their types, fill `struct ip_key` without padding, and
-- its members read as the fields.
pub key_bytes-read_member :
    (key : IpKey)
    → IsKey key
    → (length (key_bytes key) ≡ size_of ip_key)
      × (read_member (memory_of (key_bytes key)) 0 ip_key "src_ip" ≡ some key.src_ip)
      × (read_member (memory_of (key_bytes key)) 0 ip_key "dest_ip" ≡ some key.dst_ip)
      × (read_member (memory_of (key_bytes key)) 0 ip_key "src_port" ≡ some key.src_port)
      × (read_member (memory_of (key_bytes key)) 0 ip_key "dest_port" ≡ some key.dst_port)
unfolding read_member member_of size_of
key_bytes-read_member key h = (
  refl,
  ap some (omega (arith, h.src_ip_fits)),
  ap some (omega (arith, h.dst_ip_fits)),
  ap some (omega (arith, h.src_port_fits)),
  ap some (omega (arith, h.dst_port_fits)),
)
