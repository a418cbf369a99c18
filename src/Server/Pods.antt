-- ===== src/Server/Pods.antt =====
-- The handlers of pod events in cmd/server/main.go.
pub mod Numbers
pub mod Effect
pub mod Counting
pub mod Ownership
use kubezonnet.Cluster.{Addresses, Object, Pod, node_object, other_object, pod_object}
use kubezonnet.Prelude.{
  ℕ, zero, not, ◌&&◌, ◌||◌, ◌≡◌, String, List, [], ◌∷◌, Option, none, some, Bool, arith,
  if◌then◌else◌, Outcome, ok, ◌>>=◌, ◌==◌,
}
use kubezonnet.Dict.{Dict, get, put, delete, same, number_keys, string_keys}
use kubezonnet.Net.{to4}
use kubezonnet.Server.{Server, PodKey, PodInfo, key_of, pod_keys, ip_to_uint32}

module _ (net : Addresses) where
  -- `net.ParseIP`, the test for an IPv4 address, and `ipToUint32`.
  unfoldable pub parse_v4 : String → Outcome ⊥ (Option ℕ)
  parse_v4 s = elim (net.parse_ip s) [
    | none ↦ ok none
    | some ip ↦ elim (to4 ip) [
      | none ↦ ok none
      | some q ↦ do number ← ip_to_uint32 net.v6_text ip; ok (some number)
    ]
  ]

  -- The host IP, or 0.
  unfoldable pub host_ip_of : Pod → Outcome ⊥ ℕ
  host_ip_of pod = if same pod.host_ip "" then ok 0 else do
    parsed_host_ip ← parse_v4 pod.host_ip
    elim parsed_host_ip [ none ↦ ok 0 | some host_ip ↦ ok host_ip ]

  -- Addresses that are not IPv4 are skipped.
  unfoldable pub pod_ips_of : List String → Outcome ⊥ (List ℕ)
  pod_ips_of [] = ok []
  pod_ips_of (pod_ip ∷ pod_ips) = do
    ip ← parse_v4 pod_ip
    ips ← pod_ips_of pod_ips
    elim ip [ none ↦ ok ips | some number ↦ ok (number ∷ ips) ]

-- An address of the host goes to the node, any other one to the pod.
unfoldable pub index_ips : ℕ → String → PodKey → List ℕ → Server → Server
index_ips host_ip node_name key [] s = s
index_ips host_ip node_name key (ip ∷ ips) s = index_ips host_ip node_name key ips (
    if not (host_ip == 0) && ip == host_ip
    then record s { node_ip_index = put s.node_ip_index ip node_name }
    else record s { pod_ip_index = put s.pod_ip_index ip key })

unfoldable pub unindex_ips : ℕ → List ℕ → Server → Server
unindex_ips host_ip [] s = s
unindex_ips host_ip (ip ∷ ips) s = unindex_ips host_ip ips (
    if host_ip == 0 || not (ip == host_ip)
    then record s { pod_ip_index = delete s.pod_ip_index ip }
    else s)

-- What `handlePod` does under the mutex.
unfoldable pub store_pod : ℕ → List ℕ → Pod → Server → Server
store_pod host_ip ips pod s = index_ips host_ip pod.node_name (key_of pod) ips (record s {
  pod_index = put s.pod_index (key_of pod) (record { node = pod.node_name; ips = ips });
})

-- What `onPodDelete` does under the mutex.
unfoldable pub drop_pod : ℕ → Pod → Server → Server
drop_pod host_ip pod s =
    let k = key_of pod in
    let s' : Server = elim (get s.pod_index k) [
      | none ↦ s
      | some info ↦
          let unindexed = unindex_ips host_ip info.ips s in
          record unindexed { pod_index = delete unindexed.pod_index k }
    ] in
    record s' { statistics = delete s'.statistics k }

module _ (net : Addresses) where
  unfoldable pub handle_pod : Server → Object → Outcome ⊥ Server
  handle_pod s (pod_object pod) = do
    host_ip ← host_ip_of net pod
    ips ← pod_ips_of net pod.pod_ips
    ok (store_pod host_ip ips pod s)
  handle_pod s (node_object node) = ok s
  handle_pod s other_object = ok s

  unfoldable pub on_pod_add : Server → Object → Outcome ⊥ Server
  unfolding handle_pod
  on_pod_add s obj = handle_pod s obj

  unfoldable pub on_pod_update : Server → Object → Object → Outcome ⊥ Server
  unfolding handle_pod
  on_pod_update s old_obj new_obj = handle_pod s new_obj

  unfoldable pub on_pod_delete : Server → Object → Outcome ⊥ Server
  on_pod_delete s (pod_object pod) = do host_ip ← host_ip_of net pod; ok (drop_pod host_ip pod s)
  on_pod_delete s (node_object node) = ok s
  on_pod_delete s other_object = ok s
