-- ===== src/Server/Steps.antt =====
-- The server of cmd/server/main.go over time: every handler is one step under the mutex, and the
-- informers and the agents choose their order.
pub mod Kept
pub mod Invariant
use kubezonnet.Cluster.{Addresses, Object}
use kubezonnet.Prelude.{◌≡◌, ok}
use kubezonnet.Server.{Server, empty}
use kubezonnet.Server.Pods.{on_pod_add, on_pod_update, on_pod_delete}
use kubezonnet.Server.Nodes.{on_node_add, on_node_update, on_node_delete}
use kubezonnet.Server.Traffic.{Request, Response, handle_payload}

-- One call of a handler that returns.
pub data Step (net : Addresses) (s s' : Server) : Type 0 where
  pod_added : (obj : Object) → on_pod_add net s obj ≡ ok s' → Step net s s'
  pod_updated :
      (old_obj new_obj : Object) → on_pod_update net s old_obj new_obj ≡ ok s' → Step net s s'
  pod_deleted : (obj : Object) → on_pod_delete net s obj ≡ ok s' → Step net s s'
  node_added : (obj : Object) → on_node_add s obj ≡ s' → Step net s s'
  node_updated : (old_obj new_obj : Object) → on_node_update s old_obj new_obj ≡ s' → Step net s s'
  node_deleted : (obj : Object) → on_node_delete s obj ≡ s' → Step net s s'
  batch :
      (r : Request) (response : Response) → handle_payload s r ≡ ok (s', response) → Step net s s'

-- The states of a server that started empty.
pub data Reach (net : Addresses) : Server → Type 0 where
  start : Reach net empty
  next : {s s' : Server} → Reach net s → Step net s s' → Reach net s'
