-- ===== src/Agent/Node/Conserved.antt =====
-- The bytes of a local flow on the way from the packets of agent/kubezonnet.c to the bodies that
-- agent/agent.go posts.
use kubezonnet.Prelude.{ℕ, ◌+◌, ◌^◌, ◌<◌, ◌≡◌, List, [], true, ok, arith}
use kubezonnet.ByteOrder.{ntohl}
use kubezonnet.Cluster.{Addresses}
use kubezonnet.Payload.{IpKey}
use kubezonnet.Payload.RoundTrip.{IsKey}
use kubezonnet.Agent.Subnet.{Constants}
use kubezonnet.Agent.Hook.{Kernel, MapOps}
use kubezonnet.Agent.Hook.Totals.{MapLaws, total}
use kubezonnet.Agent.Node.{BatchRead, ReadsToEnd, NodeEvent, run_node}
use kubezonnet.Agent.Node.Posted.{posted_for, posted_for-Carry}
use kubezonnet.Agent.Node.Run.{packets_of, IsAlways, HasSpace, run_node-Finishes}
use kubezonnet.Agent.Sizes.{sizes_for}

module _ (net : Addresses) (kernel : Kernel) {M : Type 0} (ops : MapOps M) (laws : MapLaws ops)
    (collector : BatchRead ops) (constants : Constants) where
  -- With sending enabled, if packets run through the hook one at a time and none of them during a
  -- read, and if every read of the map reaches its end, the loop does not panic, and no byte is
  -- lost or counted twice before the bodies are posted: for a flow from a pod that is on the node
  -- at every tick, as long as the map has room for each packet, what it holds at the start fits its
  -- types and the bytes stay below 2 ^ 64, what can be decoded of the flow from the posted bodies
  -- and what is left in the map are together what was in the map at the start and the bytes of the
  -- flow's packets.
  pub run_node-conserved :
      (events : List (NodeEvent kernel.Skb)) (m : M) (key : IpKey)
      → IsKey key
      → ReadsToEnd collector
      → collector.IsValid m
      → HasSpace net kernel ops laws collector constants events m
      → IsAlways net true (ntohl key.src_ip) events
      → total ops m key + sizes_for key (packets_of kernel constants events) < 2 ^ 64
      → (m' : M) × (bodies : List (List ℕ)) × (run_node net kernel ops collector constants true
            events m
          ≡ ok (m', bodies))
        × (posted_for key bodies + total ops m' key
            ≡ total ops m key + sizes_for key (packets_of kernel constants events))
  run_node-conserved events m key h ends valid room local fits =
      let run =
        run_node-Finishes net kernel ops laws collector constants [] events m (omega arith) ends
          valid room in
      (
        run.ip_map,
        run.bodies,
        run.returns,
        omega (arith, posted_for-Carry key h run.readable, run.conserved key local fits),
      )
