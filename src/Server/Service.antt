-- ===== src/Server/Service.antt =====
-- The wiring of cmd/server/main.go (main, watchPods, watchNodes, instrumentHandler): notifications of
-- the informers and requests of clients, one after the other.
pub mod Replies
pub mod Moves
pub mod Total
pub mod Shown
use kubezonnet.Prelude.{
  ℕ, ◌≡◌, String, List, [], ◌∷◌, ◌++◌, Option, none, some, Bool, not, ◌||◌, if◌then◌else◌, Outcome,
  ok, err, panic, ◌>>=◌, Slice,
}
use kubezonnet.Cluster.{Addresses, Object}
use kubezonnet.Dict.{Dict, get, string_keys}
use kubezonnet.Server.{Server, empty, PodKey}
use kubezonnet.Server.Pods.{on_pod_add, on_pod_update, on_pod_delete}
use kubezonnet.Server.Nodes.{on_node_add, on_node_update, on_node_delete}
use kubezonnet.Server.Traffic.{Response, handle_payload}
use kubezonnet.Server.Collect.{Metric, IsRange, collect}

-- What an informer calls.
pub record ResourceEventHandlerFuncs : Type 0 where
  pub add_func : Object → Server → Outcome ⊥ Server
  pub update_func : Object → Object → Server → Outcome ⊥ Server
  pub delete_func : Object → Server → Outcome ⊥ Server

unfoldable pub watch_pods : Addresses → ResourceEventHandlerFuncs
watch_pods net = record {
  add_func = λ obj s. on_pod_add net s obj;
  update_func = λ old_obj new_obj s. on_pod_update net s old_obj new_obj;
  delete_func = λ obj s. on_pod_delete net s obj;
}

unfoldable pub watch_nodes : ResourceEventHandlerFuncs
watch_nodes = record {
  add_func = λ obj s. ok (on_node_add s obj);
  update_func = λ old_obj new_obj s. ok (on_node_update s old_obj new_obj);
  delete_func = λ obj s. ok (on_node_delete s obj);
}

-- What an informer tells.
pub data Notification : Type 0 where
  added : Object → Notification
  updated : Object → Object → Notification
  deleted : Object → Notification

abbrev pub notify : ResourceEventHandlerFuncs → Notification → Server → Outcome ⊥ Server
notify funcs (added obj) s = funcs.add_func obj s
notify funcs (updated old_obj new_obj) s = funcs.update_func old_obj new_obj s
notify funcs (deleted obj) s = funcs.delete_func obj s

-- The handler of Prometheus for the registry, and `handlePayload`.
pub data Handler : Type 0 where
  metrics_handler statistics_handler : Handler

-- A handler and the name that its requests are counted under.
pub record Route : Type 0 where
  pub handler_name : String
  pub handler : Handler

-- The calls of `http.Handle`.
abbrev pub routes : Dict String Route
routes =
    ("/metrics", record { handler_name = "metrics"; handler = metrics_handler })
    ∷ (
      "/write-network-statistics",
      record { handler_name = "write_statistics"; handler = statistics_handler },
    )
    ∷ []

-- The libraries: the mux of net/http, which finds a pattern without a slash at its end exactly at
-- its own path; the order of an iteration over the counters; the conversion to float64; and the
-- counter vectors of the handlers, one count for a handler, a method and a status.
pub record Libraries (F C : Type 0) : Type 0 where
  pub find_handler : Dict String Route → String → Option Route
  pub find_exactly : (path : String) → find_handler routes path ≡ get routes path
  pub range_of : Server → List (PodKey × ℕ)
  pub range_of_lem : (s : Server) → IsRange s (range_of s)
  pub to_float : ℕ → F
  pub no_requests : C
  pub count_request : String → String → ℕ → C → C

-- `none` is a body that cannot be read.
pub record HttpRequest : Type 0 where
  pub path : String
  pub method : String
  pub body : Option (Slice ℕ)

-- The reply without a handler, the metrics of the registry, or the reply of `handlePayload`.
pub data HttpReply (F C : Type 0) : Type 0 where
  unrouted : HttpReply F C
  scraped : List (Metric F) → C → HttpReply F C
  written : Response → HttpReply F C

-- The replies to one request.
abbrev pub replies_of : {F C : Type 0} → Option (HttpReply F C) → List (HttpReply F C)
replies_of none = []
replies_of (some reply) = reply ∷ []

pub record Service (C : Type 0) : Type 0 where
  pub server : Server
  pub requests : C

pub data Input : Type 0 where
  pod_notified : Notification → Input
  node_notified : Notification → Input
  requested : HttpRequest → Input

-- The ends of `main`: an exit with a message, or a panic outside of a request.
pub data MainEnd : Type 0 where
  exited : String → MainEnd
  panicked : MainEnd

-- Whether the calls that make a client of the cluster succeed.
pub record ClusterAccess : Type 0 where
  pub in_cluster_config : Bool
  pub build_config_from_flags : Bool
  pub new_for_config : Bool

module _ {F C : Type 0} (lib : Libraries F C) where
  -- What a handler does: the server after it, the reply and its status.
  unfoldable pub serve_handler :
      Handler → HttpRequest → Service C → Outcome ⊥ (Server × HttpReply F C × ℕ)
  serve_handler metrics_handler q v =
      ok (v.server, scraped (collect lib.to_float (lib.range_of v.server)) v.requests, 200)
  serve_handler statistics_handler q v = do
    done ← handle_payload v.server (record { method = q.method; body = q.body })
    ok (done.0, written done.1, done.1.status)

  -- The request is counted when the handler has returned.
  unfoldable pub instrument_handler :
      Route → HttpRequest → Service C → Outcome ⊥ (Service C × HttpReply F C)
  instrument_handler route q v = do
    done ← serve_handler route.handler q v
    ok (
      record {
        server = done.0;
        requests = lib.count_request route.handler_name q.method done.2 v.requests;
      },
      done.1,
    )

  -- A handler that panics is recovered from for its request only: the connection is closed without a
  -- reply.
  unfoldable pub serve : HttpRequest → Service C → Service C × Option (HttpReply F C)
  serve q v = elim (lib.find_handler routes q.path) [
    | none ↦ (v, some unrouted)
    | some route ↦ elim (instrument_handler route q v) [
      | ok done ↦ (done.0, some done.1)
      | err e ↦ absurd e
      | panic ↦ (v, none)
    ]
  ]

  -- The service that `main` starts.
  abbrev pub new_service : Service C
  new_service = record { server = empty; requests = lib.no_requests }

  module _ (net : Addresses) where
    unfoldable pub handle_input : Input → Service C → Outcome ⊥ (Service C × List (HttpReply F C))
    handle_input (pod_notified n) v = do
      s ← notify (watch_pods net) n v.server
      ok (record v { server = s }, [])
    handle_input (node_notified n) v = do
      s ← notify watch_nodes n v.server
      ok (record v { server = s }, [])
    handle_input (requested q) v = let served = serve q v in ok (served.0, replies_of served.1)

    unfoldable pub run_service :
        List Input → Service C → Outcome ⊥ (Service C × List (HttpReply F C))
    run_service [] v = ok (v, [])
    run_service (input ∷ inputs) v = do
      first ← handle_input input v
      rest ← run_service inputs first.0
      ok (rest.0, first.1 ++ rest.1)

    -- `main`, with all inputs until `ListenAndServe` returns, which is always with an error.
    unfoldable pub main_server : ClusterAccess → List Input → MainEnd × List (HttpReply F C)
    main_server cluster inputs =
        if not (cluster.in_cluster_config || cluster.build_config_from_flags)
        then (exited "Error creating kubernetes config", [])
        else if not cluster.new_for_config
        then (exited "Error creating kubernetes client", [])
        else elim (run_service inputs new_service) [
          | ok done ↦ (exited "Failed to start server", done.1)
          | err e ↦ absurd e
          | panic ↦ (panicked, [])
        ]
