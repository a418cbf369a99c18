-- ===== src/Server/Nodes/Effect.antt =====
-- What the handlers of node events in cmd/server/main.go do to the resolution of addresses.
use kubezonnet.Prelude.{
  ℕ, ◌≡◌, refl, String, Option, none, some, arith, if◌then◌else◌, Option-cases, inl, inr,
}
use kubezonnet.Dict.{
  get, get-put, get-delete, get-delete_where, HasDistinctKeys, same, number_keys, string_keys,
}
use kubezonnet.Cluster.{Node, Object, node_object}
use kubezonnet.Server.{Server, PodKey, pod_keys}
use kubezonnet.Server.Resolve.{Place, node_key, resolve}
use kubezonnet.Server.Nodes.{zone_of, on_node_add, on_node_update, on_node_delete}

-- The key that an address counts for, and the name of the node that it is at.
abbrev pub owner : Server → ℕ → Option (PodKey × String)
owner s ip = elim (get s.pod_ip_index ip) [
  | some pod_key ↦ elim (get s.pod_index pod_key) [
    | none ↦ none
    | some pod ↦ some (pod_key, pod.node)
  ]
  | none ↦ elim (get s.node_ip_index ip) [ none ↦ none | some name ↦ some (node_key name, name) ]
]

-- A place at the zone of a node, if the node has one.
abbrev placed : Option String → PodKey → Option Place
placed none key = none
placed (some zone) key = some (record { key = key; zone = zone })

resolve-owner :
    (s : Server) (ip : ℕ)
    → resolve s ip
      ≡ (elim (owner s ip) [ none ↦ none | some (key, name) ↦ placed (get s.node_index name) key ])
unfolding resolve
resolve-owner s ip = ground arith

-- Adding a node and updating it do the same. An address at this node counts in the zone of the
-- node's label from then on, or in the zone "unknown" if the node has no label, also if it was not
-- resolved before; every other address is resolved as before.
pub resolve-on_node_update :
    (s : Server) (old_obj : Object) (node : Node) (ip : ℕ)
    → (on_node_add s (node_object node) ≡ on_node_update s old_obj (node_object node))
      × (resolve (on_node_update s old_obj (node_object node)) ip ≡ (elim (owner s ip) [
        | none ↦ none
        | some (key, name) ↦
            if same node.name name
            then some (record { key = key; zone = zone_of node })
            else resolve s ip
      ]))
unfolding on_node_add on_node_update
resolve-on_node_update s old_obj node ip =
    let s' = on_node_update s old_obj (node_object node) in
    (
      refl,
      rw (resolve-owner s' ip) (elim (Option-cases (owner s ip)) [
        | inl nobody ↦ rw (nobody)
        | inr ((key, name), e) ↦ rw (e) (
            ground
              (arith, resolve-owner s ip, e, get-put s.node_index node.name (zone_of node) name))
      ]),
    )

-- After a node is deleted, in a state with one entry for each address of a node, no address at this
-- node is resolved, neither a pod's nor the node's own; every other address is resolved as before.
pub resolve-on_node_delete :
    (s : Server) (node : Node) (ip : ℕ)
    → HasDistinctKeys s.node_ip_index
    → resolve (on_node_delete s (node_object node)) ip ≡ (elim (owner s ip) [
      | none ↦ none
      | some (key, name) ↦ if same node.name name then none else resolve s ip
    ])
unfolding resolve on_node_delete
resolve-on_node_delete s node ip distinct =
    let dropped = get-delete_where (λ name. same name node.name) s.node_ip_index ip distinct in
    elim (Option-cases (get s.pod_ip_index ip)) [
      | inl no_pod ↦ elim (Option-cases (get s.node_ip_index ip)) [
        | inl no_node ↦ ground (arith, dropped)
        | inr (name, e) ↦ ground (
          arith,
          dropped,
          get-delete s.node_index node.name name,
          string_keys.same_iff node.name name,
          string_keys.same_iff name node.name,
        )
      ]
      | inr (pod_key, e) ↦ elim (Option-cases (get s.pod_index pod_key)) [
        | inl unknown ↦ ground arith
        | inr (pod, f) ↦ ground (
          arith,
          get-delete s.node_index node.name pod.node,
          string_keys.same_iff node.name pod.node,
        )
      ]
    ]
