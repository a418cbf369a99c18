-- ===== src/Delivery/Shown.antt =====
-- From the packets on all nodes to what Prometheus reads of cmd/server/main.go.
use mathlib.Core.List.{Mem, Nodup}
use kubezonnet.Prelude.{
  ℕ, ◌+◌, ◌^◌, ◌<◌, ◌≡◌, ◌≢◌, refl, ap, sym, ◌∙◌, List, [], ◌∷◌, map, true, none, some, ok,
  Outcome-cases, inl, inr, ok-injective, arith, length, u64, All, String, Slice,
}
use kubezonnet.ByteOrder.{ntohl}
use kubezonnet.Cluster.{Addresses}
use kubezonnet.Dict.{string_keys}
use kubezonnet.Payload.{IpKey}
use kubezonnet.Agent.Subnet.{Constants}
use kubezonnet.Agent.Hook.{Kernel, MapOps}
use kubezonnet.Agent.Hook.Totals.{MapLaws, total}
use kubezonnet.Agent.Sizes.{sizes_where}
use kubezonnet.Agent.Node.{BatchRead, ReadsToEnd, NodeEvent}
use kubezonnet.Agent.Node.Run.{packets_of, IsAlways, is_drained, HasSpace}
use kubezonnet.Server.{Server, PodKey}
use kubezonnet.Server.Collect.{Metric, collect}
use kubezonnet.Server.Traffic.{count_at, handle_payload}
use kubezonnet.Server.Traffic.Handler.{post}
use kubezonnet.Server.Steps.{Reach}
use kubezonnet.Server.Steps.Invariant.{Reach-IsConsistent}
use kubezonnet.Server.History.Scraped.{metric_for, shown, Reach-scrape}
use kubezonnet.Server.Service.{
  HttpRequest, Libraries, HttpReply, scraped, written, Service, Input, requested, serve,
  handle_input, run_service,
}
use kubezonnet.Server.Service.Replies.{serve_metrics, serve_batch}
use kubezonnet.Server.Service.Total.{run_service-Reach}
use kubezonnet.Delivery.Bodies.{deliver, sends_from}
use kubezonnet.Delivery.Merge.{Merges}
use kubezonnet.Delivery.Nodes.{Node, Posts, IsForeign, nodes-charged}

abbrev write_request : Slice ℕ → HttpRequest
write_request b = record { path = "/write-network-statistics"; method = "POST"; body = some b }

-- The requests of agents with these bodies.
abbrev pub writes : List ℕ → List (List ℕ) → List Input
writes spare [] = []
writes spare (body ∷ bodies) =
    requested (write_request (record { items = body; spare = spare })) ∷ writes spare bodies

module _ {F C : Type 0} (lib : Libraries F C) where
  -- The service handles the bodies as `deliver` does.
  run_service-deliver :
      (net : Addresses) (spare : List ℕ) (bodies : List (List ℕ)) (v : Service C) (s' : Server)
      → deliver spare v.server bodies ≡ ok s'
      → (v' : Service C) × (replies : List (HttpReply F C)) × (run_service lib net
            (writes spare bodies)
            v
          ≡ ok (v', replies))
        × (v'.server ≡ s')
  unfolding deliver run_service handle_input
  run_service-deliver net spare [] v s' d = (v, [], refl, ok-injective d)
  run_service-deliver net spare (body ∷ bodies) v s' d =
      let b : Slice ℕ = record { items = body; spare = spare } in
      elim (Outcome-cases (handle_payload v.server (post b))) [
        | inl ((s1, response), here) ↦
            let v1 : Service C = record {
              server = s1;
              requests = lib.count_request "write_statistics" "POST" response.status v.requests;
            } in
            let (v', replies, e, h) =
              run_service-deliver net spare bodies v1 s' (ground (arith, d, here)) in
            (
              v',
              written response ∷ replies,
              ground (arith, e, serve_batch lib (write_request b) v s1 response refl refl here),
              h,
            )
        | inr (inl (nothing, here)) ↦ absurd nothing
        | inr (inr here) ↦ let bad : ⊥ = ground (arith, here, d) in absurd bad
      ]

module _ {F C : Type 0} (lib : Libraries F C) (net : Addresses) (kernel : Kernel) {M : Type 0}
    (ops : MapOps M) (laws : MapLaws ops) (collector : BatchRead ops) (constants : Constants) where
  -- What a counter has when it had its old value and all packets of a pod have been charged to it.
  abbrev pub charged_to : Server → PodKey → List (NodeEvent kernel.Skb) → ℕ
  charged_to s key events =
      count_at s.statistics key
      + sizes_where (sends_from s key) (packets_of kernel constants events)

  -- Prometheus reads the cross-zone traffic of a pod, each byte once and as a float64, also if the
  -- hooks of several nodes see it. On each node, let packets run through the hook one at a time and
  -- none of them during a read, and let every read of the map reach its end. Let the map of the
  -- pod's node be empty at the start, have room for each packet and be collected after the last
  -- one, and let all traffic that the server would count for the pod come from addresses that this
  -- node's informer lists at every tick, with fewer than 2 ^ 64 bytes; let the maps of the other
  -- nodes have room for each packet and their informers never list such an address; let the server
  -- be in a state that its handlers can reach, and bodies of 1024 flows with their spare capacity
  -- end below 2 ^ 32 - 20 bytes. If the bodies that all nodes have posted arrive as requests, in
  -- any order that keeps those of one node in theirs, the service handles all of them. A request
  -- for the metrics then gets metrics of which no two have the same labels. Among them is one for
  -- the pod that shows the float64 of, modulo 2 ^ 64, what its counter was before plus the sizes of
  -- just those packets that the hook of its node counts and that go from the pod to a place in
  -- another zone, if that is not 0 modulo 2 ^ 64.
  pub nodes-shown :
      (spare : List ℕ) (v : Service C) (key : PodKey) (events : List (NodeEvent kernel.Skb)) (m : M)
      (others : List (Node net kernel ops laws collector constants)) (bodies : List (List (List ℕ)))
      (merged : List (List ℕ)) (method : String)
      → 20504 + length spare < 2 ^ 32
      → ReadsToEnd collector
      → collector.IsValid m
      → ((flow : IpKey) → total ops m flow ≡ 0)
      → HasSpace net kernel ops laws collector constants events m
      → is_drained true events ≡ true
      → ((flow : IpKey)
          → sends_from v.server key flow ≡ true
          → IsAlways net true (ntohl flow.src_ip) events)
      → sizes_where (sends_from v.server key) (packets_of kernel constants events) < 2 ^ 64
      → All (IsForeign net kernel ops laws collector constants v.server key) others
      → Reach net v.server
      → Posts net kernel ops laws collector constants ((events, m) ∷ others) bodies
      → Merges bodies merged
      → u64 (charged_to v.server key events) ≢ 0
      → (v' : Service C) × (replies : List (HttpReply F C)) × (metrics : List (Metric F))
        × (run_service lib net (writes spare merged) v ≡ ok (v', replies))
        × ((serve lib (record { path = "/metrics"; method = method; body = none }) v').1
            ≡ some (scraped metrics v'.requests))
        × Nodup (map (λ m. m.label_values) metrics)
        × Mem (metric_for lib.to_float key (charged_to v.server key events)) metrics
  nodes-shown spare v key events m others bodies merged method small ends valid empty room drained
        local fits foreign r posts order some_bytes =
      let (s', delivered, counted) =
        nodes-charged net kernel ops laws collector constants spare v.server key events m others
          bodies merged small ends valid empty room drained local fits foreign
          (Reach-IsConsistent r).counters_fit posts order in
      let (v', replies, e, same_server) = run_service-deliver lib net spare merged v s' delivered in
      let (v1, replies1, e1, n1, (r1, h)) = run_service-Reach lib net (writes spare merged) v r in
      let same_service : v1 ≡ v' = ap (λ t. t.0) (ok-injective (sym e1 ∙ e)) in
      let distinct = (Reach-IsConsistent r1).counters_distinct in
      let range = lib.range_of_lem v1.server in
      let final : count_at v1.server.statistics key ≡ count_at s'.statistics key =
        ap (λ t. count_at t.server.statistics key) same_service
        ∙ ap (λ t. count_at t.statistics key) same_server in
      (
        v1,
        replies1,
        collect lib.to_float (lib.range_of v1.server),
        e1,
        ap (λ t. t.1)
            (serve_metrics lib (record { path = "/metrics"; method = method; body = none }) v1
              refl),
        (Reach-scrape r1 lib.to_float (lib.range_of v1.server) range).0,
        shown lib.to_float v1.server (lib.range_of v1.server) key _ range distinct (final ∙ counted)
            some_bytes,
      )
