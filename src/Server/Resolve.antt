-- ===== src/Server/Resolve.antt =====
-- How `handlePayload` of cmd/server/main.go finds the pod or the node of an address, and its
-- zone. The code stands there twice, for the source and for the destination of an entry.
use kubezonnet.Prelude.{ℕ, ◌≡◌, ◌↔◌, String, Option, none, some, arith, Option-cases, inl, inr}
use kubezonnet.Dict.{get, number_keys, string_keys}
use kubezonnet.Server.{Server, PodKey, PodInfo, pod_keys}

-- The key to count traffic under, and the zone.
pub record Place : Type 0 where
  pub key : PodKey
  pub zone : String

abbrev pub node_key : String → PodKey
node_key node = record { namespace = "_node_"; name = node }

-- `none` is the `continue` of the loop.
unfoldable pub resolve : Server → ℕ → Option Place
resolve s ip = elim (get s.pod_ip_index ip) [
  | some pod_key ↦ elim (get s.pod_index pod_key) [
    | none ↦ none
    | some pod ↦ elim (get s.node_index pod.node) [
      | none ↦ none
      | some zone ↦ some (record { key = pod_key; zone = zone })
    ]
  ]
  | none ↦ elim (get s.node_ip_index ip) [
    | none ↦ none
    | some node ↦ elim (get s.node_index node) [
      | none ↦ none
      | some zone ↦ some (record { key = node_key node; zone = zone })
    ]
  ]
]

-- Where an address belongs: to a pod that is indexed under it and runs on a known node; or, if no
-- pod is indexed under it, to a known node for whose pods on the host network it is indexed.
pub data Located (s : Server) (ip : ℕ) (place : Place) : Type 0 where
  at_pod :
      (info : PodInfo)
      → get s.pod_ip_index ip ≡ some place.key
      → get s.pod_index place.key ≡ some info
      → get s.node_index info.node ≡ some place.zone
      → Located s ip place
  at_node :
      (node : String)
      → get s.pod_ip_index ip ≡ none
      → get s.node_ip_index ip ≡ some node
      → get s.node_index node ≡ some place.zone
      → place.key ≡ node_key node
      → Located s ip place

resolve-Located :
    (s : Server) (ip : ℕ) (place : Place) → resolve s ip ≡ some place → Located s ip place
unfolding resolve
resolve-Located s ip place h = elim (Option-cases (get s.pod_ip_index ip)) [
  | inl absent ↦ elim (Option-cases (get s.node_ip_index ip)) [
    | inl unknown ↦ let bad : ⊥ = ground arith in absurd bad
    | inr (node, e) ↦ at_node node absent e (ground arith) (ground arith)
  ]
  | inr (pod_key, e) ↦ elim (Option-cases (get s.pod_index pod_key)) [
    | inl unknown ↦ let bad : ⊥ = ground arith in absurd bad
    | inr (info, f) ↦ at_pod info (ground arith) (ground arith) (ground arith)
  ]
]

Located-resolve :
    (s : Server) (ip : ℕ) (place : Place) → Located s ip place → resolve s ip ≡ some place
unfolding resolve
Located-resolve s ip place (at_pod info p q r) = ground arith
Located-resolve s ip place (at_node node n p q r) = ground arith

-- The ladder of lookups finds a place exactly if the address belongs there: the pod indexed under
-- it comes first, and a pod that is not indexed itself, or a node without a zone, gives none.
pub resolve_iff :
    (s : Server) (ip : ℕ) (place : Place) → (resolve s ip ≡ some place) ↔ Located s ip place
resolve_iff s ip place = (resolve-Located s ip place, Located-resolve s ip place)
