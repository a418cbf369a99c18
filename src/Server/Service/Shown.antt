-- ===== src/Server/Service/Shown.antt =====
-- What cmd/server/main.go replies to a scrape, and how its main function ends.
use mathlib.Core.List.{Mem, Nodup}
use mathlib.Core.Logic.{∥∥₁_map}
use kubezonnet.Prelude.{
  some, ℕ, ◌≡◌, ◌≢◌, refl, ap, sym, ◌∙◌, subst, List, map, length, u64, ok, arith, String, Option,
  Slice, Bool, ◌||◌, ◌&&◌, if◌then◌else◌,
}
use kubezonnet.Cluster.{Addresses}
use kubezonnet.Server.{PodKey}
use kubezonnet.Server.Collect.{Metric, collect}
use kubezonnet.Server.Steps.{start}
use kubezonnet.Server.History.Scraped.{metric_for, Reach-scrape}
use kubezonnet.Server.Service.{
  Libraries, HttpReply, scraped, Service, Input, serve, run_service, new_service, ClusterAccess,
  panicked, main_server,
}
use kubezonnet.Server.Service.Replies.{serve_metrics}
use kubezonnet.Server.Service.Total.{inputs_tally, replies_in, run_service-Reach}

module _ {F C : Type 0} (lib : Libraries F C) (net : Addresses) where
  -- The bytes that a scrape after some inputs should show for a pod, a number of any size.
  abbrev pub bytes_after : List Input → PodKey → ℕ
  bytes_after inputs key = inputs_tally lib net inputs (new_service lib) key 0

  -- Any inputs, in any order, are handled to the end by a service that starts empty. A request for
  -- the metrics, of any method, then leaves the server as it is, is counted once with status 200,
  -- and gets metrics of which no two have the same labels: each of them has the namespace and the
  -- name of some pod as its labels and, modulo 2 ^ 64, the cross-zone bytes of that pod in the
  -- batches among the inputs since its last deletion as its value, and each pod for which that is
  -- not 0 has such a metric.
  pub served-metrics :
      (inputs : List Input) (method : String) (body : Option (Slice ℕ))
      → (v : Service C) × (replies : List (HttpReply F C)) × (metrics : List (Metric F))
        × (run_service lib net inputs (new_service lib) ≡ ok (v, replies))
        × (serve lib (record { path = "/metrics"; method = method; body = body }) v ≡ (
          record v { requests = lib.count_request "metrics" method 200 v.requests },
          some (scraped metrics v.requests),
        ))
        × Nodup (map (λ m. m.label_values) metrics)
        × ((m : Metric F)
            → Mem m metrics
            → ∥ ((key : PodKey) × (m ≡ metric_for lib.to_float key (bytes_after inputs key))) ∥₁)
        × ((key : PodKey)
            → u64 (bytes_after inputs key) ≢ 0
            → Mem (metric_for lib.to_float key (bytes_after inputs key)) metrics)
  served-metrics inputs method body =
      let (v, replies, e, n, (r, h)) = run_service-Reach lib net inputs (new_service lib) start in
      let (distinct, sound, complete) =
        Reach-scrape r lib.to_float (lib.range_of v.server) (lib.range_of_lem v.server) in
      (
        v,
        replies,
        collect lib.to_float (lib.range_of v.server),
        e,
        serve_metrics lib (record { path = "/metrics"; method = method; body = body }) v refl,
        distinct,
        λ m listed.
            ∥∥₁_map (sound m listed)
              (λ found. (found.0, found.1 ∙ ap (metric_for lib.to_float found.0) (h found.0))),
        λ key counted.
            subst
              (λ n.
                Mem (metric_for lib.to_float key n) (collect lib.to_float (lib.range_of v.server)))
              (h key) (complete key (λ none. counted (ap u64 (sym (h key)) ∙ none))),
      )

  -- Whether there is a client of the cluster.
  abbrev pub is_connected : ClusterAccess → Bool
  is_connected cluster =
      (cluster.in_cluster_config || cluster.build_config_from_flags) && cluster.new_for_config

  -- No input makes `main` panic outside of a request, and if there is a client of the cluster, every
  -- request until `ListenAndServe` returns has one reply, but for a POST to the path for batches with
  -- a body that makes `Decode` panic: its connection is closed without one.
  pub main_server-replies :
      (cluster : ClusterAccess) (inputs : List Input)
      → ((main_server lib net cluster inputs).0 ≢ panicked)
        × (length (main_server lib net cluster inputs).1
            ≡ (if is_connected cluster then replies_in inputs else 0))
  unfolding main_server
  main_server-replies cluster inputs =
      let (v, replies, e, n, rest) = run_service-Reach lib net inputs (new_service lib) start in
      ground (arith, e, n)
