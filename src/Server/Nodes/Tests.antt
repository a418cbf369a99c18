-- ===== src/Server/Nodes/Tests.antt =====
-- Node events of cmd/server/main.go on a server that knows two pods.
use kubezonnet.Prelude.{◌≡◌, some, none, [], ◌∷◌}
use kubezonnet.Dict.{get}
use kubezonnet.Cluster.{Node, node_object, other_object}
use kubezonnet.Server.{same_pod}
use kubezonnet.Server.Resolve.{resolve}
use kubezonnet.Server.Nodes.{zone_of, on_node_add, on_node_update, on_node_delete}
use kubezonnet.Server.Nodes.Effect.{resolve-on_node_update, resolve-on_node_delete}
use kubezonnet.Server.Tests.{two_pods, key_a}

abbrev moved_node : Node
moved_node = record { name = "n1"; labels = ("topology.kubernetes.io/zone", "z3") ∷ [] }

resolve-on_node_update_example :
    (on_node_add two_pods (node_object moved_node)
      ≡ on_node_update two_pods other_object (node_object moved_node))
    × (resolve (on_node_update two_pods other_object (node_object moved_node)) 0x0a000102
        ≡ some (record { key = key_a; zone = "z3" }))
unfolding get zone_of same_pod
resolve-on_node_update_example = resolve-on_node_update two_pods other_object moved_node 0x0a000102

resolve-on_node_delete_example :
    resolve (on_node_delete two_pods (node_object moved_node)) 0x0a000102 ≡ none
unfolding get same_pod
resolve-on_node_delete_example = resolve-on_node_delete two_pods moved_node 0x0a000102 tt
