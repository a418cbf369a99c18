-- ===== src/Server/Service/Moves.antt =====
-- What one notification or request does to the server of cmd/server/main.go: its handler returns, and
-- the balances of pods change as the input says.
use kubezonnet.Prelude.{
  length, subst, ℕ, ◌+◌, ◌≡◌, refl, ap, sym, List, [], ok, panic, arith, if◌then◌else◌,
  Outcome-cases, Option-cases, inl, inr, false, Bool-cases,
}
use kubezonnet.Cluster.{Addresses, Object, pod_object, node_object, other_object}
use kubezonnet.Dict.{same, string_keys}
use kubezonnet.Payload.{decode}
use kubezonnet.Server.{Server, PodKey, same_pod, key_of}
use kubezonnet.Server.Pods.{on_pod_add, on_pod_update, on_pod_delete, handle_pod}
use kubezonnet.Server.Pods.Numbers.{handle_pod_lem, on_pod_delete_lem}
use kubezonnet.Server.Traffic.{Request, handle_payload, handle_decoded}
use kubezonnet.Server.Steps.{
  Step, pod_added, pod_updated, pod_deleted, node_added, node_updated, node_deleted, batch, Reach,
  next,
}
use kubezonnet.Server.History.{bytes_in, tally, balance}
use kubezonnet.Server.Service.Replies.{
  is_broken, length-serve, serve_metrics, serve_unrouted, serve_batch, serve_batch_aborted,
}
use kubezonnet.Server.Service.{
  Notification, added, updated, deleted, notify, watch_pods, watch_nodes, Libraries, HttpRequest,
  HttpReply, replies_of, Service, serve, Input, pod_notified, node_notified, requested,
  handle_input,
}

-- The balance of a pod after an input: the notification of its deletion sets it to 0, and a request
-- to the path for batches adds its bytes.
abbrev pub input_tally : Server → Input → PodKey → ℕ → ℕ
input_tally s (pod_notified (deleted (pod_object pod))) key n =
    if same_pod (key_of pod) key then 0 else n
input_tally s (pod_notified (deleted (node_object node))) key n = n
input_tally s (pod_notified (deleted other_object)) key n = n
input_tally s (pod_notified (added obj)) key n = n
input_tally s (pod_notified (updated old_obj obj)) key n = n
input_tally s (node_notified news) key n = n
input_tally s (requested q) key n =
    if same "/write-network-statistics" q.path
    then n + bytes_in s (record { method = q.method; body = q.body }) key
    else n

-- The number of replies to an input.
abbrev pub replies_to : Input → ℕ
replies_to (pod_notified news) = 0
replies_to (node_notified news) = 0
replies_to (requested q) = if is_broken q then 0 else 1

-- A state that was reached, and one that is reached from it with the given change of balances.
abbrev pub Moved : (net : Addresses) (s s' : Server) → (PodKey → ℕ → ℕ) → Type 0
Moved net s s' change =
    (r : Reach net s)
    → (r' : Reach net s') × ((key : PodKey) → balance r' key ≡ change key (balance r key))

module _ (net : Addresses) where
  handle_pod-returns : (s : Server) (obj : Object) → (s' : Server) × (handle_pod net s obj ≡ ok s')
  unfolding handle_pod
  handle_pod-returns s (pod_object pod) = (_, handle_pod_lem net s pod)
  handle_pod-returns s (node_object node) = (s, refl)
  handle_pod-returns s other_object = (s, refl)

  on_pod_delete-returns :
      (s : Server) (obj : Object) → (s' : Server) × (on_pod_delete net s obj ≡ ok s')
  unfolding on_pod_delete
  on_pod_delete-returns s (pod_object pod) = (_, on_pod_delete_lem net s pod)
  on_pod_delete-returns s (node_object node) = (s, refl)
  on_pod_delete-returns s other_object = (s, refl)

  -- A step, with what it does to the balances.
  moved :
      {s s' : Server} (step : Step net s s') (change : PodKey → ℕ → ℕ)
      → ((key : PodKey) (n : ℕ) → tally step key n ≡ change key n)
      → Moved net s s' change
  moved step change h r = (next r step, λ key. h key (balance r key))

  pub pod_notified-Moved :
      (news : Notification) (s : Server)
      → (s' : Server) × (notify (watch_pods net) news s ≡ ok s')
        × Moved net s s' (input_tally s (pod_notified news))
  unfolding watch_pods on_pod_add on_pod_update
  pod_notified-Moved (added obj) s =
      let (s', e) = handle_pod-returns s obj in
      (s', e, moved (pod_added obj e) (input_tally s (pod_notified (added obj))) (λ key n. refl))
  pod_notified-Moved (updated old_obj obj) s =
      let (s', e) = handle_pod-returns s obj in
      (
        s',
        e,
        moved (pod_updated old_obj obj e) (input_tally s (pod_notified (updated old_obj obj)))
            (λ key n. refl),
      )
  pod_notified-Moved (deleted (pod_object pod)) s =
      let (s', e) = on_pod_delete-returns s (pod_object pod) in
      (s', e, moved (pod_deleted (pod_object pod) e) _ (λ key n. refl))
  pod_notified-Moved (deleted (node_object node)) s =
      let (s', e) = on_pod_delete-returns s (node_object node) in
      (s', e, moved (pod_deleted (node_object node) e) _ (λ key n. refl))
  pod_notified-Moved (deleted other_object) s =
      let (s', e) = on_pod_delete-returns s other_object in
      (s', e, moved (pod_deleted other_object e) _ (λ key n. refl))

  pub node_notified-Moved :
      (news : Notification) (s : Server)
      → (s' : Server) × (notify watch_nodes news s ≡ ok s')
        × Moved net s s' (input_tally s (node_notified news))
  unfolding watch_nodes
  node_notified-Moved (added obj) s = (_, refl, moved (node_added obj refl) _ (λ key n. refl))
  node_notified-Moved (updated old_obj obj) s =
      (_, refl, moved (node_updated old_obj obj refl) _ (λ key n. refl))
  node_notified-Moved (deleted obj) s = (_, refl, moved (node_deleted obj refl) _ (λ key n. refl))

  panic-bytes_in :
      (s : Server) (r : Request) (key : PodKey) → handle_payload s r ≡ panic → bytes_in s r key ≡ 0
  unfolding handle_payload handle_decoded
  panic-bytes_in s r key e = elim (Bool-cases (same r.method "POST")) [
    | inr not_post ↦ ground arith
    | inl is_post ↦ elim (Option-cases r.body) [
      | inl unread ↦ ground arith
      | inr (body, b) ↦ elim (Outcome-cases (decode body)) [
        | inl (entries, d) ↦ ground arith
        | inr (inl (why, d)) ↦ ground arith
        | inr (inr d) ↦ ground arith
      ]
    ]
  ]

  kept :
      {s s' : Server} (change : PodKey → ℕ → ℕ)
      → s' ≡ s
      → ((key : PodKey) (n : ℕ) → n ≡ change key n)
      → Moved net s s' change
  kept {s} change e h =
      subst (λ t. Moved net s t change) (sym e) (λ r. (r, λ key. h key (balance r key)))

  module _ {F C : Type 0} (lib : Libraries F C) where
    serve-Moved :
        (q : HttpRequest) (v : Service C)
        → Moved net v.server (serve lib q v).0.server (input_tally v.server (requested q))
    serve-Moved q v = elim (Bool-cases (same "/metrics" q.path)) [
      | inl here ↦
          let path : q.path ≡ "/metrics" = sym ((string_keys.same_iff "/metrics" q.path).0 here) in
          let other : same "/write-network-statistics" q.path ≡ false =
            ap (same "/write-network-statistics") path in
          kept (input_tally v.server (requested q))
            (ap (λ a. a.0.server) (serve_metrics lib q v path)) (λ key n. ground (arith, other))
      | inr there ↦ elim (Bool-cases (same "/write-network-statistics" q.path)) [
        | inr elsewhere ↦
            kept (input_tally v.server (requested q))
              (ap (λ a. a.0.server) (serve_unrouted lib q v there elsewhere))
              (λ key n. ground arith)
        | inl written ↦
            let r : Request = record { method = q.method; body = q.body } in
            elim (Outcome-cases (handle_payload v.server r)) [
              | inl ((s', response), e) ↦
                  subst (λ t. Moved net v.server t (input_tally v.server (requested q)))
                    (sym (ap (λ a. a.0.server) (serve_batch lib q v s' response there written e)))
                    (moved (batch r response e) (input_tally v.server (requested q))
                      (λ key n. ground (arith, written)))
              | inr (inl (nothing, e)) ↦ absurd nothing
              | inr (inr e) ↦
                  kept (input_tally v.server (requested q))
                    (ap (λ a. a.0.server) (serve_batch_aborted lib q v there written e))
                    (λ key n. ground (arith, written, panic-bytes_in v.server r key e))
            ]
      ]
    ]

    -- An input is handled: what it leaves, the replies, and what it did.
    pub handle_input-Moved :
        (input : Input) (v : Service C)
        → (v' : Service C) × (replies : List (HttpReply F C)) × (handle_input lib net input v
            ≡ ok (v', replies))
          × Moved net v.server v'.server (input_tally v.server input)
          × (length replies ≡ replies_to input)
    unfolding handle_input
    handle_input-Moved (pod_notified news) v =
        let (s', e, moves) = pod_notified-Moved news v.server in
        (record v { server = s' }, [], ground (arith, e), moves, refl)
    handle_input-Moved (node_notified news) v =
        let (s', e, moves) = node_notified-Moved news v.server in
        (record v { server = s' }, [], ground (arith, e), moves, refl)
    handle_input-Moved (requested q) v = (
      (serve lib q v).0,
      replies_of (serve lib q v).1,
      refl,
      serve-Moved q v,
      length-serve lib q v,
    )
