-- ===== src/Server/Nodes.antt =====
-- The handlers of node events in cmd/server/main.go.
pub mod Effect
mod Tests
use kubezonnet.Cluster.{Node, Object, node_object, other_object, pod_object}
use kubezonnet.Prelude.{String, none, some}
use kubezonnet.Dict.{get, put, delete, delete_where, same, number_keys, string_keys}
use kubezonnet.Server.{Server}

-- The zone of a node: its label, or "unknown".
unfoldable pub zone_of : Node → String
zone_of node = elim (get node.labels "topology.kubernetes.io/zone") [
  | none ↦ "unknown"
  | some zone ↦ zone
]

unfoldable pub on_node_add : Server → Object → Server
on_node_add s (node_object node) = record s {
  node_index = put s.node_index node.name (zone_of node);
}
on_node_add s (pod_object pod) = s
on_node_add s other_object = s

unfoldable pub on_node_update : Server → Object → Object → Server
on_node_update s old_obj (node_object node) = record s {
  node_index = put s.node_index node.name (zone_of node);
}
on_node_update s old_obj (pod_object pod) = s
on_node_update s old_obj other_object = s

unfoldable pub on_node_delete : Server → Object → Server
on_node_delete s (node_object node) = record s {
  node_ip_index = delete_where (λ node_name. same node_name node.name) s.node_ip_index;
  node_index = delete s.node_index node.name;
}
on_node_delete s (pod_object pod) = s
on_node_delete s other_object = s
