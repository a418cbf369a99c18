-- ===== src/Delivery/Nodes.antt =====
-- All nodes of a cluster: the hook of agent/kubezonnet.c and the loop of agent/agent.go on each of
-- them, and the handler of cmd/server/main.go for the bodies of all.
use kubezonnet.Prelude.{
  ℕ, ◌+◌, ◌^◌, ◌<◌, ◌≡◌, refl, sym, ◌∙◌, List, [], ◌∷◌, true, false, ok, ok-injective, ap, subst,
  length, arith, u64, All,
}
use kubezonnet.ByteOrder.{ntohl}
use kubezonnet.Cluster.{Addresses}
use kubezonnet.Payload.{IpKey}
use kubezonnet.Agent.Subnet.{Constants}
use kubezonnet.Agent.Hook.{Kernel, MapOps}
use kubezonnet.Agent.Hook.Totals.{MapLaws, total}
use kubezonnet.Agent.Sizes.{sizes_where}
use kubezonnet.Agent.Sizes.Agree.{sizes_where-agree}
use kubezonnet.Agent.Node.{BatchRead, ReadsToEnd, NodeEvent, run_node}
use kubezonnet.Agent.Node.Carried.{Carry, nothing}
use kubezonnet.Agent.Node.Run.{
  packets_of, IsAlways, is_drained, HasSpace, Finishes, run_node-Finishes,
}
use kubezonnet.Server.{Server, PodKey}
use kubezonnet.Server.Traffic.{count_at}
use kubezonnet.Server.Traffic.Handler.{HasCounters}
use kubezonnet.Delivery.Bodies.{deliver, sends_from, deliver-Charged}
use kubezonnet.Delivery.Charged.{Finishes-carried}
use kubezonnet.Delivery.Merge.{Merges, no_lists, one_more, Carry-Merge}

module _ (net : Addresses) (kernel : Kernel) {M : Type 0} (ops : MapOps M) (laws : MapLaws ops)
    (collector : BatchRead ops) (constants : Constants) where
  -- A node: what happens on it, and its map at the start.
  abbrev pub Node : Type 0
  Node = List (NodeEvent kernel.Skb) × M

  -- The bodies that each node has posted.
  pub data Posts : List Node → List (List (List ℕ)) → Type 0 where
    no_nodes : Posts [] []
    node_posts :
        {nodes : List Node} {bodies : List (List (List ℕ))} (events : List (NodeEvent kernel.Skb))
        (m m' : M) (posted : List (List ℕ))
        → run_node net kernel ops collector constants true events m ≡ ok (m', posted)
        → Posts nodes bodies
        → Posts ((events, m) ∷ nodes) (posted ∷ bodies)

  -- A node on which no packet meets a full map, and that never lists an address from which the
  -- server would count traffic for the pod.
  abbrev pub IsForeign : Server → PodKey → Node → Type 0
  IsForeign s key (events, m) =
      collector.IsValid m
      × HasSpace net kernel ops laws collector constants events m
      × ((flow : IpKey)
          → sends_from s key flow ≡ true
          → IsAlways net false (ntohl flow.src_ip) events)

  -- What the run of a node carries is in the bodies that it has posted.
  posted_of :
      (spare : List ℕ) (events : List (NodeEvent kernel.Skb)) (m m' : M) (posted : List (List ℕ))
      (run : Finishes net kernel ops laws collector constants spare events m)
      → run_node net kernel ops collector constants true events m ≡ ok (m', posted)
      → Carry spare posted run.carried
  posted_of spare events m m' posted run e =
      subst (λ b. Carry spare b run.carried) (ap (λ r. r.1) (ok-injective (sym run.returns ∙ e)))
        run.readable

  -- In any order the bodies of other nodes carry nothing for the pod.
  foreign-carried :
      (spare : List ℕ) (s : Server) (key : PodKey) {nodes : List Node}
      {bodies : List (List (List ℕ))} {merged : List (List ℕ)}
      → 20504 + length spare < 2 ^ 32
      → ReadsToEnd collector
      → Posts nodes bodies
      → All (IsForeign s key) nodes
      → Merges bodies merged
      → (carried : List (IpKey × ℕ)) × Carry spare merged carried
        × (sizes_where (sends_from s key) carried ≡ 0)
  foreign-carried spare s key small ends no_nodes h no_lists = ([], nothing, refl)
  foreign-carried spare s key small ends (node_posts events m m' posted e rest)
        ((valid, room, away), h) (one_more others order) =
      let run =
        run_node-Finishes net kernel ops laws collector constants spare events m small ends valid
          room in
      let none_here =
        sizes_where-agree (sends_from s key) run.carried []
          (λ flow from_pod. run.foreign flow (away flow from_pod)) in
      let (carried, c, none_there) = foreign-carried spare s key small ends rest h others in
      let both = Carry-Merge (posted_of spare events m m' posted run e) c order in
      (
        both.carried,
        both.readable,
        omega (arith, both.summed (sends_from s key), none_here, none_there),
      )

  -- Cross-zone traffic is charged to the pod that sends it, to the byte and once, also if the hooks
  -- of several nodes see it. On each node, let packets run through the hook one at a time and none of
  -- them during a read, and let every read of the map reach its end. Let the map of the pod's node be
  -- empty at the start, have room for each
  -- packet and be collected after the last one, and let all traffic that the server would count for
  -- the pod come from addresses that this node's informer lists at every tick, with fewer than
  -- 2 ^ 64 bytes; let the maps of the other nodes have room for each packet and their informers
  -- never list such an address; and let the server's counters be below 2 ^ 64, and bodies of 1024
  -- flows with their spare capacity end below 2 ^ 32 - 20 bytes. If the bodies that all nodes have
  -- posted are handled in any order that keeps those of one node in theirs, the server does not
  -- panic, and the pod's counter has grown, modulo 2 ^ 64, by the sizes of just those packets that
  -- the hook of its node counts and that go from the pod to a place in another zone.
  pub nodes-charged :
      (spare : List ℕ) (s : Server) (key : PodKey) (events : List (NodeEvent kernel.Skb)) (m : M)
      (others : List Node) (bodies : List (List (List ℕ))) (merged : List (List ℕ))
      → 20504 + length spare < 2 ^ 32
      → ReadsToEnd collector
      → collector.IsValid m
      → ((flow : IpKey) → total ops m flow ≡ 0)
      → HasSpace net kernel ops laws collector constants events m
      → is_drained true events ≡ true
      → ((flow : IpKey)
          → sends_from s key flow ≡ true
          → IsAlways net true (ntohl flow.src_ip) events)
      → sizes_where (sends_from s key) (packets_of kernel constants events) < 2 ^ 64
      → All (IsForeign s key) others
      → HasCounters s
      → Posts ((events, m) ∷ others) bodies
      → Merges bodies merged
      → (s' : Server) × (deliver spare s merged ≡ ok s')
        × (count_at s'.statistics key
            ≡ u64 (
                count_at s.statistics key
                + sizes_where (sends_from s key) (packets_of kernel constants events)))
  nodes-charged spare s key events m others _ merged small ends valid empty room drained local fits
        foreign h (node_posts _ _ m' posted e rest) (one_more elsewhere order) =
      let run =
        run_node-Finishes net kernel ops laws collector constants spare events m small ends valid
          room in
      let all_here =
        Finishes-carried net kernel ops laws collector constants spare events m s key run empty
          drained local fits in
      let (carried, c, none_there) =
        foreign-carried spare s key small ends rest foreign elsewhere in
      let both = Carry-Merge (posted_of spare events m m' posted run e) c order in
      let after = deliver-Charged s h both.readable in
      (
        after.after,
        after.returns,
        omega (arith, after.counted key, both.summed (sends_from s key), all_here, none_there),
      )
