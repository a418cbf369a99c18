-- ===== src/Server/Tests.antt =====
-- Runs of cmd/server/main.go: two pods on two nodes in two zones.
pub mod Service
pub mod History
pub mod Progress
use kubezonnet.Cluster.{Addresses, Object, Pod, node_object, other_object, pod_object}
use kubezonnet.Prelude.{
  contains, ℕ, ◌≡◌, ◌↔◌, ◌⊎◌, ◌≢◌, inl, refl, subst, String, List, [], ◌∷◌, Option, none, some,
  true, ok, err, panic, arith, if◌then◌else◌, Slice,
}
use kubezonnet.Dict.{get, put, delete, same, string_keys, number_keys}
use kubezonnet.Net.{Ip, Quad, to4}
use kubezonnet.Net.Laws.{IsQuad}
use kubezonnet.Payload.{DecodeError, encode, decode}
use kubezonnet.Payload.Tests.{
  sample_key, sample_value, sample_entry, sample_buf, wrapped_buf, sample_decoded,
}
use kubezonnet.ByteOrder.{ntohl}
use kubezonnet.Server.{Server, empty, PodKey, PodInfo, pod_keys, same_pod}
use kubezonnet.Server.Resolve.{resolve, Located, resolve_iff}
use kubezonnet.Server.Pods.{
  on_pod_add, on_pod_update, on_pod_delete, store_pod, drop_pod, index_ips, unindex_ips,
}
use kubezonnet.Server.Pods.Numbers.{handle_pod_lem, on_pod_delete_lem}
use kubezonnet.Server.Pods.Effect.{IsStored, IsDropped}
use kubezonnet.Server.Pods.Counting.{
  on_pod_update-IsStored, on_pod_delete-IsDropped, resolve-on_pod_update, resolve-on_pod_delete,
}
use kubezonnet.Server.Pods.Ownership.{IsOwned, on_pod_update-IsOwned, on_pod_delete-IsOwned}
use kubezonnet.Server.Pods.Ownership.{IsOwned, on_pod_update-IsOwned}
use kubezonnet.Server.Nodes.{on_node_add, zone_of}
use kubezonnet.Server.Traffic.{Response, handle_payload, handle_decoded, decode_message, http_error}
use kubezonnet.Server.Traffic.Handler.{
  post, HasCounters, IsCounted, handle_payload-IsCounted, encoded_batch-IsCounted,
  handle_payload_refusal, handle_payload_panic,
}
use kubezonnet.Server.Steps.{node_added, pod_updated, pod_deleted, Reach, start, next}
use kubezonnet.Server.Steps.Kept.{IsConsistent}
use kubezonnet.Server.Steps.Invariant.{Reach-IsConsistent}

-- `net.ParseIP` on the texts of the pods.
abbrev pub parse_sample : String → Option Ip
parse_sample s =
    if same s "10.0.1.2"
    then some (10 ∷ 0 ∷ 1 ∷ 2 ∷ [])
    else if same s "10.0.2.3"
    then some (10 ∷ 0 ∷ 2 ∷ 3 ∷ [])
    else none

pub parse_sample-IsQuad :
    (s : String) (ip : Ip) (q : Quad) → parse_sample s ≡ some ip → to4 ip ≡ some q → IsQuad q
unfolding to4
parse_sample-IsQuad s ip q h e = ground arith

abbrev pub test_net : Addresses
test_net = record {
  parse_ip = parse_sample;
  v6_text = λ ip. [];
  parse_ip_bytes = parse_sample-IsQuad;
}

abbrev pub pod_a : Pod
pod_a = record {
  namespace = "default";
  name = "a";
  node_name = "n1";
  host_ip = "";
  pod_ips = "10.0.1.2" ∷ [];
}

abbrev pub key_a : PodKey
key_a = record { namespace = "default"; name = "a" }

abbrev pub key_b : PodKey
key_b = record { namespace = "default"; name = "b" }

abbrev pub info_a : PodInfo
info_a = record { node = "n1"; ips = 0x0a000102 ∷ [] }

abbrev pub info_b : PodInfo
info_b = record { node = "n2"; ips = 0x0a000203 ∷ [] }

-- Both pods are known.
abbrev pub two_pods : Server
two_pods = record {
  pod_ip_index = (0x0a000102, key_a) ∷ (0x0a000203, key_b) ∷ [];
  node_ip_index = [];
  pod_index = (key_a, info_a) ∷ (key_b, info_b) ∷ [];
  node_index = ("n1", "z1") ∷ ("n2", "z2") ∷ [];
  statistics = [];
}

pub two_pods-HasCounters : HasCounters two_pods
unfolding get
two_pods-HasCounters key = omega arith

handle_payload-IsCounted_example :
    IsCounted two_pods (sample_entry ∷ []) (handle_payload two_pods (post sample_buf))
handle_payload-IsCounted_example =
    handle_payload-IsCounted two_pods sample_buf (sample_entry ∷ []) two_pods-HasCounters
      sample_decoded

handle_payload_panic_example : handle_payload two_pods (post wrapped_buf) ≡ panic
handle_payload_panic_example =
    handle_payload_panic two_pods wrapped_buf (omega arith) (omega arith) (omega arith)
      (omega arith)

resolve_iff_example :
    (resolve two_pods 0x0a000102 ≡ some (record { key = key_a; zone = "z1" }))
    ↔ Located two_pods 0x0a000102 (record { key = key_a; zone = "z1" })
resolve_iff_example = resolve_iff two_pods 0x0a000102 (record { key = key_a; zone = "z1" })

-- A body of one byte.
abbrev short_body : Slice ℕ
short_body = record { items = 1 ∷ []; spare = [] }

short_body_refused :
    handle_payload two_pods (post short_body)
    ≡ ok (two_pods, http_error "Failed to decode request body: unexpected length of buffer" 400)
unfolding handle_payload handle_decoded decode decode_message
short_body_refused = refl

abbrev method : String
method = "POST"

abbrev refused : Response
refused = http_error "Failed to decode request body: unexpected length of buffer" 400

handle_payload_refusal_example :
    (two_pods ≡ two_pods)
    × (refused.logged ≡ [])
    × (((refused.status ≡ 405) × (method ≢ method))
        ⊎ ((refused.status ≡ 500) × (method ≡ method) × (some short_body ≡ none))
        ⊎ ((refused.status ≡ 400)
            × (method ≡ method)
            × ((body : Slice ℕ) × (e : DecodeError) × (some short_body ≡ some body)
                × (decode body ≡ err e))))
handle_payload_refusal_example =
    handle_payload_refusal two_pods two_pods (post short_body) refused short_body_refused
      (omega arith)

-- Only the nodes are known.
abbrev pub two_nodes : Server
two_nodes = record empty { node_index = ("n1", "z1") ∷ ("n2", "z2") ∷ [] }

-- The first pod is known as well.
abbrev pub one_pod : Server
one_pod = record two_nodes {
  pod_ip_index = (0x0a000102, key_a) ∷ [];
  pod_index = (key_a, info_a) ∷ [];
}

pod_a_added : on_pod_update test_net two_nodes other_object (pod_object pod_a) ≡ ok one_pod
unfolding on_pod_update store_pod index_ips put to4
pod_a_added = handle_pod_lem test_net two_nodes pod_a

pub pod_a_deleted : on_pod_delete test_net one_pod (pod_object pod_a) ≡ ok two_nodes
unfolding drop_pod unindex_ips get delete same_pod
pod_a_deleted = on_pod_delete_lem test_net one_pod pod_a

on_pod_update-IsStored_example :
    (s' : Server) × (on_pod_add test_net two_nodes (pod_object pod_a) ≡ ok s')
    × (on_pod_update test_net two_nodes other_object (pod_object pod_a) ≡ ok s')
    × IsStored 0 (0x0a000102 ∷ []) pod_a two_nodes s'
unfolding to4
on_pod_update-IsStored_example = on_pod_update-IsStored test_net two_nodes other_object pod_a

resolve-on_pod_update_example :
    resolve one_pod 0x0a000102 ≡ some (record { key = key_a; zone = "z1" })
unfolding get to4
resolve-on_pod_update_example =
    resolve-on_pod_update test_net two_nodes one_pod other_object pod_a 0x0a000102 "z1" pod_a_added
      refl refl (inl refl)

resolve-on_pod_delete_example : resolve two_nodes 0x0a000102 ≡ none
unfolding get same_pod
resolve-on_pod_delete_example =
    resolve-on_pod_delete test_net one_pod two_nodes pod_a info_a 0x0a000102 pod_a_deleted refl refl
      refl refl

on_pod_update-IsOwned_example : IsOwned one_pod
unfolding get
on_pod_update-IsOwned_example =
    on_pod_update-IsOwned test_net two_nodes one_pod other_object pod_a pod_a_added (λ ip key e. cc)
      (λ ip e. cc)

-- Both nodes come, then a pod comes and goes.
abbrev node : String → String → Object
node name zone =
    node_object (record { name = name; labels = ("topology.kubernetes.io/zone", zone) ∷ [] })

pub one_pod-Reach : Reach test_net one_pod
unfolding on_node_add zone_of get put on_pod_update
one_pod-Reach =
    next (next (next start (node_added (node "n1" "z1") refl)) (node_added (node "n2" "z2") refl))
      (pod_updated other_object (pod_object pod_a) pod_a_added)
