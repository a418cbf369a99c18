-- ===== src/Agent/Node/Shutdown.antt =====
-- The end of the loop of `Run` in agent/agent.go.
use kubezonnet.Prelude.{◌≡◌, refl, List, [], ◌∷◌, ◌++◌, Bool, true, false, ok, ◌>>=◌, ap, map}
use kubezonnet.Cluster.{pod_object, Addresses}
use kubezonnet.Agent.Subnet.{Constants}
use kubezonnet.Agent.Hook.{Kernel, MapOps, nf_postrouting_hook}
use kubezonnet.Agent.Collection.{tick}
use kubezonnet.Agent.Node.{
  BatchRead, NodeEvent, packet, ticker, stop_signal, context_done, posts, run_node,
}

-- A signal or the end of the context.
abbrev pub is_last : {Skb : Type 0} → NodeEvent Skb → Bool
is_last (packet skb) = false
is_last (ticker pods) = false
is_last stop_signal = true
is_last context_done = true

module _ (net : Addresses) (kernel : Kernel) {M : Type 0} (ops : MapOps M)
    (collector : BatchRead ops) (constants : Constants) (send_data : Bool) where
  -- The loop ends at a signal or at the end of its context: whatever came before, also if it
  -- panicked, nothing that comes later changes the map or is posted.
  pub run_node-append :
      (events : List (NodeEvent kernel.Skb)) (last : NodeEvent kernel.Skb)
      (later : List (NodeEvent kernel.Skb)) (m : M)
      → is_last last ≡ true
      → run_node net kernel ops collector constants send_data (events ++ (last ∷ later)) m
        ≡ run_node net kernel ops collector constants send_data events m
  unfolding run_node
  run_node-append [] (packet skb) later m h = cc
  run_node-append [] (ticker pods) later m h = cc
  run_node-append [] stop_signal later m h = refl
  run_node-append [] context_done later m h = refl
  run_node-append (packet skb ∷ events) last later m h =
      run_node-append events last later (nf_postrouting_hook kernel ops constants skb m).0 h
  run_node-append (ticker pods ∷ events) last later m h =
      ap
        (λ rest.
          tick net send_data (collector.read m).0 (map pod_object pods)
          >>= (λ posted. rest >>= (λ r. ok (r.0, posts posted r.1))))
        (run_node-append events last later (collector.read m).1 h)
  run_node-append (stop_signal ∷ events) last later m h = refl
  run_node-append (context_done ∷ events) last later m h = refl
