-- ===== src/Server/Quiet.antt =====
-- The handlers of cmd/server/main.go that leave the counters as they are.
use kubezonnet.Prelude.{◌≡◌, refl, ap, sym, ok, ok-injective}
use kubezonnet.Cluster.{Object, pod_object, node_object, other_object, Addresses}
use kubezonnet.Server.{Server}
use kubezonnet.Server.Pods.{handle_pod, on_pod_update}
use kubezonnet.Server.Pods.Counting.{IsStored-by_update}
use kubezonnet.Server.Nodes.{on_node_add, on_node_update, on_node_delete}

pub pod_update-kept :
    (net : Addresses) (s s' : Server) (old_obj obj : Object)
    → on_pod_update net s old_obj obj ≡ ok s'
    → s'.statistics ≡ s.statistics
unfolding on_pod_update handle_pod
pod_update-kept net s s' old_obj (pod_object pod) e =
    (IsStored-by_update net s s' old_obj pod e).counters_kept
pod_update-kept net s s' old_obj (node_object node) e =
    ap (λ t. t.statistics) (sym (ok-injective e))
pod_update-kept net s s' old_obj other_object e = ap (λ t. t.statistics) (sym (ok-injective e))

-- Node events leave the counters.
pub node_add-kept : (s : Server) (obj : Object) → (on_node_add s obj).statistics ≡ s.statistics
unfolding on_node_add
node_add-kept s (node_object node) = refl
node_add-kept s (pod_object pod) = refl
node_add-kept s other_object = refl

pub node_update-kept :
    (s : Server) (old_obj obj : Object) → (on_node_update s old_obj obj).statistics ≡ s.statistics
unfolding on_node_update
node_update-kept s old_obj (node_object node) = refl
node_update-kept s old_obj (pod_object pod) = refl
node_update-kept s old_obj other_object = refl

pub node_delete-kept :
    (s : Server) (obj : Object) → (on_node_delete s obj).statistics ≡ s.statistics
unfolding on_node_delete
node_delete-kept s (node_object node) = refl
node_delete-kept s (pod_object pod) = refl
node_delete-kept s other_object = refl
