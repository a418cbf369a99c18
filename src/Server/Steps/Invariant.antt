-- ===== src/Server/Steps/Invariant.antt =====
-- What holds in every state of the server of cmd/server/main.go, whatever the informers and the
-- agents send.
use kubezonnet.Cluster.{Addresses, Object, ip_numbers, node_object, other_object, pod_object}
use kubezonnet.Prelude.{
  ◌≡◌, ap, subst, List, arith, Outcome, ok, err, panic, ok-injective, Bool-cases, Option-cases, inl,
  inr,
}
use kubezonnet.Dict.{
  get, put-HasDistinctKeys, delete-HasDistinctKeys, delete_where-HasDistinctKeys, number_keys,
  string_keys, same,
}
use kubezonnet.Payload.{Entry, DecodeError, decode}
use kubezonnet.Server.{Server, empty, pod_keys}
use kubezonnet.Server.Pods.{handle_pod, on_pod_add, on_pod_update, on_pod_delete}
use kubezonnet.Server.Pods.Numbers.{host_number, handle_pod_lem, on_pod_delete_lem}
use kubezonnet.Server.Nodes.{on_node_add, on_node_update, on_node_delete, zone_of}
use kubezonnet.Server.Traffic.{Request, Response, handle_payload, handle_decoded}
use kubezonnet.Server.Steps.{
  Step, pod_added, pod_updated, pod_deleted, node_added, node_updated, node_deleted, batch, Reach,
  start, next,
}
use kubezonnet.Server.Steps.Kept.{
  IsConsistent, with_node_index, with_node_ip_index, store_pod-IsConsistent, drop_pod-IsConsistent,
  entries-IsConsistent,
}

module _ (net : Addresses) {s s' : Server} (h : IsConsistent s) where
  handle_pod-IsConsistent : (obj : Object) → handle_pod net s obj ≡ ok s' → IsConsistent s'
  unfolding handle_pod
  handle_pod-IsConsistent (pod_object pod) e =
      let stored =
        store_pod-IsConsistent (host_number net pod) (ip_numbers net pod.pod_ips) pod s h in
      subst IsConsistent (cc (handle_pod_lem net s pod)) stored
  handle_pod-IsConsistent (node_object node) e = subst IsConsistent (cc) h
  handle_pod-IsConsistent other_object e = subst IsConsistent (cc) h

  on_pod_delete-IsConsistent : (obj : Object) → on_pod_delete net s obj ≡ ok s' → IsConsistent s'
  unfolding on_pod_delete
  on_pod_delete-IsConsistent (pod_object pod) e =
      subst IsConsistent (cc (on_pod_delete_lem net s pod))
        (drop_pod-IsConsistent (host_number net pod) pod s h)
  on_pod_delete-IsConsistent (node_object node) e = subst IsConsistent (cc) h
  on_pod_delete-IsConsistent other_object e = subst IsConsistent (cc) h

module _ {s : Server} (h : IsConsistent s) where
  on_node_add-IsConsistent : (obj : Object) → IsConsistent (on_node_add s obj)
  unfolding on_node_add
  on_node_add-IsConsistent (node_object node) =
      with_node_index h _
        (put-HasDistinctKeys s.node_index node.name (zone_of node) h.nodes_distinct)
  on_node_add-IsConsistent (pod_object pod) = h
  on_node_add-IsConsistent other_object = h

  on_node_update-IsConsistent : (old_obj obj : Object) → IsConsistent (on_node_update s old_obj obj)
  unfolding on_node_update
  on_node_update-IsConsistent old_obj (node_object node) =
      with_node_index h _
        (put-HasDistinctKeys s.node_index node.name (zone_of node) h.nodes_distinct)
  on_node_update-IsConsistent old_obj (pod_object pod) = h
  on_node_update-IsConsistent old_obj other_object = h

  on_node_delete-IsConsistent : (obj : Object) → IsConsistent (on_node_delete s obj)
  unfolding on_node_delete
  on_node_delete-IsConsistent (node_object node) =
      with_node_index
        (with_node_ip_index h _
          (delete_where-HasDistinctKeys _ s.node_ip_index h.node_ips_distinct))
        _ (delete-HasDistinctKeys s.node_index node.name h.nodes_distinct)
  on_node_delete-IsConsistent (pod_object pod) = h
  on_node_delete-IsConsistent other_object = h

handled-IsConsistent :
    {s s' : Server} (decoded : Outcome DecodeError (List Entry)) (response : Response)
    → IsConsistent s
    → handle_decoded s decoded ≡ ok (s', response)
    → IsConsistent s'
unfolding handle_decoded
handled-IsConsistent (ok entries) response h e =
    subst IsConsistent (ap (λ p. p.0) (ok-injective e)) (entries-IsConsistent entries _ h)
handled-IsConsistent (err why) response h e = subst IsConsistent (ap (λ p. p.0) (ok-injective e)) h
handled-IsConsistent panic response h e = cc

handle_payload-IsConsistent :
    {s s' : Server} (r : Request) (response : Response)
    → IsConsistent s
    → handle_payload s r ≡ ok (s', response)
    → IsConsistent s'
unfolding handle_payload
handle_payload-IsConsistent {s} {s'} r response h e = elim (Bool-cases (same r.method "POST")) [
  | inr not_post ↦ subst IsConsistent (ground arith) h
  | inl is_post ↦ elim (Option-cases r.body) [
    | inl unread ↦ subst IsConsistent (ground arith) h
    | inr (body, b) ↦ handled-IsConsistent (decode body) response h (ground arith)
  ]
]

Step-IsConsistent :
    {net : Addresses} {s s' : Server} → Step net s s' → IsConsistent s → IsConsistent s'
unfolding on_pod_add on_pod_update
Step-IsConsistent {net} (pod_added obj e) h = handle_pod-IsConsistent net h obj e
Step-IsConsistent {net} (pod_updated old_obj obj e) h = handle_pod-IsConsistent net h obj e
Step-IsConsistent {net} (pod_deleted obj e) h = on_pod_delete-IsConsistent net h obj e
Step-IsConsistent (node_added obj e) h = subst IsConsistent e (on_node_add-IsConsistent h obj)
Step-IsConsistent (node_updated old_obj obj e) h =
    subst IsConsistent e (on_node_update-IsConsistent h old_obj obj)
Step-IsConsistent (node_deleted obj e) h = subst IsConsistent e (on_node_delete-IsConsistent h obj)
Step-IsConsistent (batch r response e) h = handle_payload-IsConsistent r response h e

empty-IsConsistent : IsConsistent empty
unfolding get
empty-IsConsistent = record {
  pod_ips_distinct = tt;
  node_ips_distinct = tt;
  pods_distinct = tt;
  nodes_distinct = tt;
  counters_distinct = tt;
  counters_fit = λ key. omega arith;
}

-- In every state that a server reaches, by any sequence of events and batches, each of its five
-- maps has at most one entry for a key, and every counter is below 2 ^ 64.
pub Reach-IsConsistent : {net : Addresses} {s : Server} → Reach net s → IsConsistent s
Reach-IsConsistent start = empty-IsConsistent
Reach-IsConsistent (next r step) = Step-IsConsistent step (Reach-IsConsistent r)
