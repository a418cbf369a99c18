-- ===== src/Delivery/Charged.antt =====
-- From the packets on a node to the counters of the server: the hook of agent/kubezonnet.c, the loop
-- of agent/agent.go and the handler of cmd/server/main.go.
use kubezonnet.Prelude.{ℕ, ◌+◌, ◌^◌, ◌<◌, ◌≡◌, List, true, ok, length, arith, u64}
use kubezonnet.ByteOrder.{ntohl}
use kubezonnet.Cluster.{Addresses}
use kubezonnet.Payload.{IpKey}
use kubezonnet.Agent.Subnet.{Constants}
use kubezonnet.Agent.Hook.{Kernel, MapOps}
use kubezonnet.Agent.Hook.Totals.{MapLaws, total}
use kubezonnet.Agent.Sizes.{sizes_where}
use kubezonnet.Agent.Sizes.Agree.{sizes_where-agree, sizes_for-le}
use kubezonnet.Agent.Node.{BatchRead, ReadsToEnd, NodeEvent, run_node}
use kubezonnet.Agent.Node.Run.{
  packets_of, IsAlways, is_drained, HasSpace, Finishes, run_node-Finishes,
}
use kubezonnet.Server.{Server, PodKey}
use kubezonnet.Server.Traffic.{count_at}
use kubezonnet.Server.Traffic.Handler.{HasCounters}
use kubezonnet.Delivery.Bodies.{deliver, sends_from, deliver-Charged}

module _ (net : Addresses) (kernel : Kernel) {M : Type 0} (ops : MapOps M) (laws : MapLaws ops)
    (collector : BatchRead ops) (constants : Constants) (spare : List ℕ)
    (events : List (NodeEvent kernel.Skb)) (m : M) (s : Server) (key : PodKey) where
  -- The bodies of the pod's node carry just the packets that the server would count for the pod.
  pub Finishes-carried :
      (run : Finishes net kernel ops laws collector constants spare events m)
      → ((flow : IpKey) → total ops m flow ≡ 0)
      → is_drained true events ≡ true
      → ((flow : IpKey)
          → sends_from s key flow ≡ true
          → IsAlways net true (ntohl flow.src_ip) events)
      → sizes_where (sends_from s key) (packets_of kernel constants events) < 2 ^ 64
      → sizes_where (sends_from s key) run.carried
        ≡ sizes_where (sends_from s key) (packets_of kernel constants events)
  Finishes-carried run empty drained local fits =
      let packets = packets_of kernel constants events in
      sizes_where-agree (sends_from s key) run.carried packets (λ flow from_pod. omega (
        arith,
        empty flow,
        run.drained true (λ e k. empty k) drained flow,
        run.conserved flow (local flow from_pod) (
            omega (arith, empty flow, fits, sizes_for-le (sends_from s key) flow packets from_pod)),
      ))

  -- Cross-zone traffic is charged to the pod that sends it, to the byte, whatever the order of
  -- packets and ticks, if packets run through the hook one at a time and none of them during a
  -- read: if every read of the map reaches its end, if the map is empty at the start, has room for
  -- each packet and is collected after the last one, if all traffic that the server would count for
  -- a pod comes from addresses that the node's informer lists at every tick, if its bytes and the
  -- server's counters are below 2 ^ 64 and bodies of 1024 flows with their spare capacity end below
  -- 2 ^ 32 - 20 bytes, then neither the agent nor the server panics, and after all posted bodies
  -- have been handled in order the pod's counter has grown, modulo 2 ^ 64, by the sizes of just
  -- those packets that the hook counts and that go from the pod to a place in another zone.
  pub run_node-charged :
      20504 + length spare < 2 ^ 32
      → ReadsToEnd collector
      → collector.IsValid m
      → ((flow : IpKey) → total ops m flow ≡ 0)
      → HasSpace net kernel ops laws collector constants events m
      → is_drained true events ≡ true
      → HasCounters s
      → ((flow : IpKey)
          → sends_from s key flow ≡ true
          → IsAlways net true (ntohl flow.src_ip) events)
      → sizes_where (sends_from s key) (packets_of kernel constants events) < 2 ^ 64
      → (m' : M) × (bodies : List (List ℕ)) × (s' : Server) × (run_node net kernel ops collector
            constants true events m
          ≡ ok (m', bodies))
        × (deliver spare s bodies ≡ ok s')
        × (count_at s'.statistics key
            ≡ u64 (
                count_at s.statistics key
                + sizes_where (sends_from s key) (packets_of kernel constants events)))
  run_node-charged small ends valid empty room drained h local fits =
      let run =
        run_node-Finishes net kernel ops laws collector constants spare events m small ends valid
          room in
      let after = deliver-Charged s h run.readable in
      let all_carried = Finishes-carried run empty drained local fits in
      (
        run.ip_map,
        run.bodies,
        after.after,
        run.returns,
        after.returns,
        omega (arith, after.counted key, all_carried),
      )
