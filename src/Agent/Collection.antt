-- ===== src/Agent/Collection.antt =====
-- The collection of agent/agent.go: at every tick the agent takes what the eBPF map has counted,
-- keeps the flows that start at a pod of its node and sends them to the server.
pub mod Filter
pub mod Tick
use kubezonnet.Prelude.{
  ℕ, zero, suc, ◌+◌, ◌≡◌, String, List, [], ◌∷◌, Option, none, some, Bool, true, false, not, ◌&&◌,
  ◌||◌, leb, ltb, ◌==◌, if◌then◌else◌, length, take, Outcome, ok, panic, ◌>>=◌,
}
use kubezonnet.Dict.{Dict, get, put, number_keys}
use kubezonnet.Net.{Ip, to4}
use kubezonnet.Cluster.{Pod, Node, Object, pod_object, node_object, other_object, Addresses}
use kubezonnet.Payload.{IpKey, IpValue, value_at, encode}
use kubezonnet.ByteOrder.{ntohl}
use kubezonnet.Agent.Address.{ip_to_uint32}

-- An object that is not a pod makes the type assertion panic.
unfoldable pub convert_to_pods : List Object → Outcome ⊥ (List Pod)
convert_to_pods [] = ok []
convert_to_pods (pod_object pod ∷ objs) = do pods ← convert_to_pods objs; ok (pod ∷ pods)
convert_to_pods (node_object node ∷ objs) = panic
convert_to_pods (other_object ∷ objs) = panic

-- `map[uint32]struct{}`
abbrev pub IpSet : Type 0
IpSet = Dict ℕ (Unit {0})

module _ (net : Addresses) where
  -- The addresses of one pod, added to the set; those that are not IPv4 are skipped.
  unfoldable pub add_pod_ips : List String → IpSet → Outcome ⊥ (IpSet)
  add_pod_ips [] ips_on_host = ok ips_on_host
  add_pod_ips (pod_ip ∷ pod_ips) ips_on_host = elim (net.parse_ip pod_ip) [
    | none ↦ add_pod_ips pod_ips ips_on_host
    | some ip ↦ elim (to4 ip) [
      | none ↦ add_pod_ips pod_ips ips_on_host
      | some q ↦ do
        number ← ip_to_uint32 net.v6_text ip
        add_pod_ips pod_ips (put ips_on_host number tt)
    ]
  ]

  unfoldable pub add_pods : List Pod → IpSet → Outcome ⊥ (IpSet)
  add_pods [] ips_on_host = ok ips_on_host
  add_pods (pod ∷ pods) ips_on_host = do
    ips_on_host ← add_pod_ips pod.pod_ips ips_on_host
    add_pods pods ips_on_host

-- The loop over the keys, from index `i`.
unfoldable pub filter_from :
    IpSet → List IpKey → List IpValue → ℕ → Outcome ⊥ (List IpKey × List IpValue)
filter_from ips_on_host [] values i = ok ([], [])
filter_from ips_on_host (key ∷ keys) values i = elim (get ips_on_host (ntohl key.src_ip)) [
  | none ↦ filter_from ips_on_host keys values (i + 1)
  | some found ↦ do
    value ← value_at values i
    rest ← filter_from ips_on_host keys values (i + 1)
    ok (key ∷ rest.0, value ∷ rest.1)
]

-- The errors of `BatchLookupAndDelete`: `ErrKeyNotExist`, when it has reached the map's end, and
-- all others.
pub data BatchError : Type 0 where
  key_not_exist other_error : BatchError

-- What `BatchLookupAndDelete` returns, and the two slices that it has written to.
pub record Batch : Type 0 where
  pub n : ℕ
  pub error : Option BatchError
  pub keys : List IpKey
  pub values : List IpValue

-- `err != nil && !errors.Is(err, ebpf.ErrKeyNotExist)`
unfoldable pub is_failure : Option BatchError → Bool
is_failure none = false
is_failure (some key_not_exist) = false
is_failure (some other_error) = true

module _ (net : Addresses) where
  unfoldable pub filter_src_ip_on_current_host :
      List IpKey → List IpValue → List Pod → Outcome ⊥ (List IpKey × List IpValue)
  filter_src_ip_on_current_host keys values pods_on_host = do
    ips_on_host ← add_pods net pods_on_host []
    filter_from ips_on_host keys values 0

  -- One tick, with the objects in the informer's store: the body that is posted to the server, if
  -- there is one. A slice `keys[:n]` that leaves the slice is a panic.
  unfoldable pub tick : Bool → Batch → List Object → Outcome ⊥ (Option (List ℕ))
  tick send_data batch objs =
      if leb batch.n 0
      then ok none
      else if is_failure batch.error
      then ok none
      else if ltb (length batch.keys) batch.n || ltb (length batch.values) batch.n
      then panic
      else do
        pods ← convert_to_pods objs
        final ←
            filter_src_ip_on_current_host (take batch.n batch.keys) (take batch.n batch.values) pods
        if send_data && ltb 0 (length final.0)
            then (do content ← encode final.0 final.1; ok (some content))
            else ok none
