-- ===== src/Server/History.antt =====
-- The counters of cmd/server/main.go over time: what each of them shows after any events and batches.
pub mod Scraped
use kubezonnet.Prelude.{
  ℕ, ◌+◌, ◌≡◌, refl, ap, sym, ◌∙◌, true, false, none, some, ok, err, panic, ok-injective, arith,
  if◌then◌else◌, u64, Bool-cases, Option-cases, Outcome-cases, inl, inr,
}
use kubezonnet.Dict.{get, same, string_keys}
use kubezonnet.Cluster.{Object, pod_object, node_object, other_object, Addresses}
use kubezonnet.Payload.{Entry, decode}
use kubezonnet.Server.{Server, empty, PodKey, same_pod, key_of}
use kubezonnet.Server.Pods.{on_pod_add, on_pod_update, on_pod_delete}
use kubezonnet.Server.Pods.Counting.{IsDropped-by_delete}
use kubezonnet.Server.Quiet.{pod_update-kept, node_add-kept, node_update-kept, node_delete-kept}
use kubezonnet.Server.Traffic.{Request, Response, count_at, handle_payload, handle_decoded}
use kubezonnet.Server.Traffic.Crossing.{entries_from, bytes_from-Flows}
use kubezonnet.Server.Traffic.Handler.{post, IsCounted, handle_payload-IsCounted}
use kubezonnet.Server.Steps.{
  Step, pod_added, pod_updated, pod_deleted, node_added, node_updated, node_deleted, batch, Reach,
  start, next,
}
use kubezonnet.Server.Steps.Kept.{IsConsistent}
use kubezonnet.Server.Steps.Invariant.{Reach-IsConsistent}

-- The cross-zone bytes of a pod in a request, for what the server knows when it arrives. A request
-- that is refused has none.
abbrev pub bytes_in : Server → Request → PodKey → ℕ
bytes_in s r key =
    if same r.method "POST"
    then elim r.body [
      | none ↦ 0
      | some body ↦ elim (decode body) [
        | ok entries ↦ entries_from s key entries
        | err e ↦ 0
        | panic ↦ 0
      ]
    ]
    else 0

-- The balance of a pod after a step: its deletion sets it to 0, and a batch adds its bytes.
abbrev pub tally : {net : Addresses} {s s' : Server} → Step net s s' → PodKey → ℕ → ℕ
tally (pod_added obj e) key n = n
tally (pod_updated old_obj obj e) key n = n
tally (pod_deleted (pod_object pod) e) key n = if same_pod (key_of pod) key then 0 else n
tally (pod_deleted (node_object node) e) key n = n
tally (pod_deleted other_object e) key n = n
tally (node_added obj e) key n = n
tally (node_updated old_obj obj e) key n = n
tally (node_deleted obj e) key n = n
tally {s} (batch r response e) key n = n + bytes_in s r key

-- The balance of a pod after a history, a number of any size.
abbrev pub balance : {net : Addresses} {s : Server} → Reach net s → PodKey → ℕ
balance start key = 0
balance (next r step) key = tally step key (balance r key)

same_count :
    (s s' : Server) (key : PodKey) (n : ℕ)
    → s'.statistics ≡ s.statistics
    → count_at s.statistics key ≡ u64 n
    → count_at s'.statistics key ≡ u64 n
same_count s s' key n e h = ap (λ m. count_at m key) e ∙ h

counted-bytes :
    (s s' : Server) (r : Request) (response : Response) (key : PodKey) (n : ℕ)
    → IsConsistent s
    → handle_payload s r ≡ ok (s', response)
    → count_at s.statistics key ≡ u64 n
    → count_at s'.statistics key ≡ u64 (n + bytes_in s r key)
unfolding handle_payload handle_decoded
counted-bytes s s' r response key n h e before = elim (Bool-cases (same r.method "POST")) [
  | inr not_post ↦ ground arith
  | inl is_post ↦ elim (Option-cases r.body) [
    | inl unread ↦ ground arith
    | inr (body, b) ↦ elim (Outcome-cases (decode body)) [
      | inl (entries, d) ↦
          let method = (string_keys.same_iff r.method "POST").0 is_post in
          let request : r ≡ post body = ground (arith, method, b) in
          let c = handle_payload-IsCounted s body entries h.counters_fit d in
          let final : c.after ≡ s' =
            ap (λ p. p.0)
              (ok-injective (sym c.replies ∙ ap (handle_payload s) (sym request) ∙ e)) in
          let now : count_at s'.statistics key ≡ count_at c.after.statistics key =
            ap (λ t. count_at t.statistics key) (sym final) in
          let added : bytes_in s r key ≡ entries_from s key entries =
            ground (arith, is_post, b, d) in
          omega (arith, now, added, before, c.counted key, bytes_from-Flows key c.cross_zone)
      | inr (inl (why, d)) ↦ ground arith
      | inr (inr d) ↦ let bad : ⊥ = ground arith in absurd bad
    ]
  ]
]

Step-tally :
    {net : Addresses} {s s' : Server} (step : Step net s s') (key : PodKey) (n : ℕ)
    → IsConsistent s
    → count_at s.statistics key ≡ u64 n
    → count_at s'.statistics key ≡ u64 (tally step key n)
unfolding on_pod_add on_pod_update on_pod_delete
Step-tally {net} {s} {s'} (pod_added obj e) key n h before =
    same_count s s' key n (pod_update-kept net s s' obj obj e) before
Step-tally {net} {s} {s'} (pod_updated old_obj obj e) key n h before =
    same_count s s' key n (pod_update-kept net s s' old_obj obj e) before
Step-tally {net} {s} {s'} (pod_deleted (pod_object pod) e) key n h before =
    ground (arith, before, (IsDropped-by_delete net s s' pod e).counters key)
Step-tally {net} {s} {s'} (pod_deleted (node_object node) e) key n h before =
    same_count s s' key n (ap (λ t. t.statistics) (sym (ok-injective e))) before
Step-tally {net} {s} {s'} (pod_deleted other_object e) key n h before =
    same_count s s' key n (ap (λ t. t.statistics) (sym (ok-injective e))) before
Step-tally {net} {s} {s'} (node_added obj e) key n h before =
    same_count s s' key n (ap (λ t. t.statistics) (sym e) ∙ node_add-kept s obj) before
Step-tally {net} {s} {s'} (node_updated old_obj obj e) key n h before =
    same_count s s' key n (ap (λ t. t.statistics) (sym e) ∙ node_update-kept s old_obj obj) before
Step-tally {net} {s} {s'} (node_deleted obj e) key n h before =
    same_count s s' key n (ap (λ t. t.statistics) (sym e) ∙ node_delete-kept s obj) before
Step-tally {net} {s} {s'} (batch r response e) key n h before =
    counted-bytes s s' r response key n h e before

-- After any events and batches since the server started empty, the counter of a pod is, modulo
-- 2 ^ 64, the number of bytes of its cross-zone traffic in all accepted batches since the pod was
-- last deleted, where each batch is read with what the server knew when it arrived.
pub Reach-balance :
    {net : Addresses} {s : Server} (r : Reach net s) (key : PodKey)
    → count_at s.statistics key ≡ u64 (balance r key)
unfolding get
Reach-balance start key = omega arith
Reach-balance (next r step) key =
    Step-tally step key (balance r key) (Reach-IsConsistent r) (Reach-balance r key)
