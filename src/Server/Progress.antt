-- ===== src/Server/Progress.antt =====
-- From the arrival of two pods to a counter of cmd/server/main.go: what it takes for traffic to be
-- counted.
use kubezonnet.Prelude.{
  ℕ, ◌+◌, ◌≡◌, ◌≢◌, refl, ap, ◌∙◌, String, List, [], ◌∷◌, some, true, false, arith, u64, ok, Slice,
  pos, int64, contains,
}
use kubezonnet.Dict.{get, put, get-put, same, number_keys, string_keys}
use kubezonnet.Cluster.{Pod, Node, pod_object, node_object, other_object, Addresses, ip_numbers}
use kubezonnet.Payload.{Entry, decode}
use kubezonnet.Server.{Server, PodKey, pod_keys, same_pod_iff, key_of}
use kubezonnet.Server.Resolve.{Place, resolve}
use kubezonnet.Server.Pods.{on_pod_add}
use kubezonnet.Server.Pods.Numbers.{host_number}
use kubezonnet.Server.Pods.Effect.{is_host}
use kubezonnet.Server.Pods.Counting.{on_pod_update-IsStored}
use kubezonnet.Server.Nodes.{zone_of, on_node_add}
use kubezonnet.Server.Traffic.{
  Response, count_at, add_traffic, count_entry, count_entries, handle_payload, handle_decoded,
  handle_entries,
}
use kubezonnet.Server.Traffic.Handler.{post}

-- An address of a pod that is not its host's.
abbrev pub HasAddress : Addresses → Pod → ℕ → Type 0
HasAddress net pod ip =
    (contains (ip_numbers net pod.pod_ips) ip ≡ true) × (is_host (host_number net pod) ip ≡ false)

-- Where an address is, by the entries on the way.
resolve_pod :
    (s : Server) (ip : ℕ) (key : PodKey) (node zone : String) (ips : List ℕ)
    → get s.pod_ip_index ip ≡ some key
    → get s.pod_index key ≡ some (record { node = node; ips = ips })
    → get s.node_index node ≡ some zone
    → resolve s ip ≡ some (record { key = key; zone = zone })
unfolding resolve
resolve_pod s ip key node zone ips p q r = ground arith

-- One cross-zone entry.
handle_payload_one :
    (s : Server) (body : Slice ℕ) (entry : Entry) (src dst : Place)
    → decode body ≡ ok (entry ∷ [])
    → resolve s entry.src_ip ≡ some src
    → resolve s entry.dst_ip ≡ some dst
    → same src.zone dst.zone ≡ false
    → (response : Response) × (response.status ≡ 200)
      × (handle_payload s (post body) ≡ ok (add_traffic s src.key entry.traffic, response))
unfolding handle_payload handle_decoded handle_entries count_entries count_entry
handle_payload_one s body entry src dst d p q z = (
  record {
    status = 200;
    message = "";
    logged =
        record {
          src = src.key;
          src_port = pos entry.src_port;
          dst = dst.key;
          dst_port = pos entry.dst_port;
          bytes = int64 entry.traffic;
        }
        ∷ [];
  },
  refl,
  rw (d, handle_decoded, handle_entries, count_entries, count_entry, p, q, z) refl,
)

-- The zones of two nodes that have been added one after the other.
nodes_added-zones :
    (s : Server) (node_a node_b : Node)
    → node_a.name ≢ node_b.name
    → (get
          (on_node_add (on_node_add s (node_object node_a)) (node_object node_b)).node_index
          node_a.name
        ≡ some (zone_of node_a))
      × (get
            (on_node_add (on_node_add s (node_object node_a)) (node_object node_b)).node_index
            node_b.name
          ≡ some (zone_of node_b))
unfolding on_node_add
nodes_added-zones s node_a node_b names =
    let m = put s.node_index node_a.name (zone_of node_a) in
    (
      ground (
        arith,
        names,
        get-put m node_b.name (zone_of node_b) node_a.name,
        get-put s.node_index node_a.name (zone_of node_a) node_a.name,
        string_keys.same_iff node_b.name node_a.name,
        string_keys.same_iff node_a.name node_a.name,
      ),
      ground (
        arith,
        get-put m node_b.name (zone_of node_b) node_b.name,
        string_keys.same_iff node_b.name node_b.name,
      ),
    )

-- The counter of a key to which traffic was added.
count_at-add_traffic :
    (s : Server) (key : PodKey) (traffic : ℕ)
    → count_at (add_traffic s key traffic).statistics key
      ≡ u64 (count_at s.statistics key + traffic)
unfolding add_traffic
count_at-add_traffic s key traffic = ground (
  arith,
  get-put s.statistics key (u64 (count_at s.statistics key + traffic)) key,
  same_pod_iff key key,
)

-- Traffic is counted as soon as the server knows its two ends: in any state, once the nodes of two
-- pods in different zones and then the pods themselves are added, none of which panics, a batch of
-- one entry from the first pod to the second is answered with status 200, and the counter of the
-- first pod has grown by its bytes, modulo 2 ^ 64. The pods have different keys, the entry's
-- addresses are theirs and not their hosts', and the second pod does not have the first address.
pub new_pods-counted :
    (net : Addresses) (s : Server) (node_a node_b : Node) (pod_a pod_b : Pod) (body : Slice ℕ)
    (entry : Entry)
    → node_a.name ≢ node_b.name
    → zone_of node_a ≢ zone_of node_b
    → pod_a.node_name ≡ node_a.name
    → pod_b.node_name ≡ node_b.name
    → key_of pod_a ≢ key_of pod_b
    → HasAddress net pod_a entry.src_ip
    → HasAddress net pod_b entry.dst_ip
    → contains (ip_numbers net pod_b.pod_ips) entry.src_ip ≡ false
    → decode body ≡ ok (entry ∷ [])
    → (s3 s4 s5 : Server) × (response : Response) × (on_pod_add net
          (on_node_add (on_node_add s (node_object node_a)) (node_object node_b))
          (pod_object pod_a)
        ≡ ok s3)
      × (on_pod_add net s3 (pod_object pod_b) ≡ ok s4)
      × (handle_payload s4 (post body) ≡ ok (s5, response))
      × (response.status ≡ 200)
      × (count_at s5.statistics (key_of pod_a)
          ≡ u64 (count_at s.statistics (key_of pod_a) + entry.traffic))
unfolding on_node_add
new_pods-counted net s node_a node_b pod_a pod_b body entry names zones at_a at_b keys src dst free
      d =
    let s2 = on_node_add (on_node_add s (node_object node_a)) (node_object node_b) in
    let (s3, added_a, updated_a, a) = on_pod_update-IsStored net s2 other_object pod_a in
    let (s4, added_b, updated_b, b) = on_pod_update-IsStored net s3 other_object pod_b in
    let ips_a = ip_numbers net pod_a.pod_ips in
    let ips_b = ip_numbers net pod_b.pod_ips in
    let zones_kept : s4.node_index ≡ s2.node_index = b.zones_kept ∙ a.zones_kept in
    let located = nodes_added-zones s node_a node_b names in
    let zone_a =
      ap (λ m. get m pod_a.node_name) zones_kept ∙ ap (get s2.node_index) at_a ∙ located.0 in
    let zone_b =
      ap (λ m. get m pod_b.node_name) zones_kept ∙ ap (get s2.node_index) at_b ∙ located.1 in
    let source =
      resolve_pod s4 entry.src_ip (key_of pod_a) pod_a.node_name (zone_of node_a) ips_a
        (ground (arith, src, free, a.pod_ips entry.src_ip, b.pod_ips entry.src_ip))
        (ground (
          arith,
          keys,
          a.pods (key_of pod_a),
          b.pods (key_of pod_a),
          same_pod_iff (key_of pod_b) (key_of pod_a),
          same_pod_iff (key_of pod_a) (key_of pod_a),
        ))
        zone_a in
    let target =
      resolve_pod s4 entry.dst_ip (key_of pod_b) pod_b.node_name (zone_of node_b) ips_b
        (ground (arith, dst, b.pod_ips entry.dst_ip))
        (ground (arith, b.pods (key_of pod_b), same_pod_iff (key_of pod_b) (key_of pod_b)))
        zone_b in
    let (response, status, replied) =
      handle_payload_one s4 body entry (record { key = key_of pod_a; zone = zone_of node_a })
        (record { key = key_of pod_b; zone = zone_of node_b }) d source target
        (ground (arith, zones, string_keys.same_iff (zone_of node_a) (zone_of node_b))) in
    let counters : s4.statistics ≡ s.statistics = b.counters_kept ∙ a.counters_kept in
    (
      s3,
      s4,
      add_traffic s4 (key_of pod_a) entry.traffic,
      response,
      added_a,
      added_b,
      replied,
      status,
      count_at-add_traffic s4 (key_of pod_a) entry.traffic
          ∙ ap (λ m. u64 (count_at m (key_of pod_a) + entry.traffic)) counters,
    )
