-- ===== src/Delivery.antt =====
-- From a tick of agent/agent.go to the counters of cmd/server/main.go: the body that an agent posts
-- is the one that the server's handler receives.
pub mod Sent
pub mod Bodies
pub mod Charged
pub mod Merge
pub mod Nodes
pub mod Shown
mod Tests
use kubezonnet.Prelude.{
  ℕ, ◌+◌, ◌*◌, ◌^◌, ◌<◌, ◌≤◌, ◌≡◌, ◌⊎◌, inl, inr, refl, sym, subst, ◌∙◌, List, [], map, some, none,
  true, false, ok, ok-injective, length, take, length-take, arith, All, All-take,
}
use kubezonnet.Cluster.{Pod, pod_object, Addresses}
use kubezonnet.Payload.{IpKey, IpValue, encode}
use kubezonnet.Payload.RoundTrip.{IsKey, IsValue, all_received}
use kubezonnet.Agent.Collection.{Batch, is_failure, tick}
use kubezonnet.Agent.Collection.Filter.{Kept}
use kubezonnet.Agent.Collection.Tick.{tick-Kept, length-Kept, All-Kept}
use kubezonnet.Server.{Server}
use kubezonnet.Server.Traffic.{handle_payload}
use kubezonnet.Server.Traffic.Handler.{post, HasCounters, IsCounted, encoded_batch-IsCounted}

-- If a tick reads some flows from the eBPF map, without an error or with the one for the end of the
-- map, their fields fit their types, the informer's store holds pods, a body of all of them with
-- its spare capacity would end below 2 ^ 32 - 20 bytes, and the server's counters are below 2 ^ 64,
-- then the agent posts nothing if no flow starts at a pod of its node, and else a body for which
-- the server counts just the flows that start at a pod of the agent's node, with their addresses in
-- host byte order.
pub tick-IsCounted :
    (net : Addresses) (batch : Batch) (pods : List Pod) (s : Server) (spare : List ℕ)
    → 0 < batch.n
    → is_failure batch.error ≡ false
    → batch.n ≤ length batch.keys
    → batch.n ≤ length batch.values
    → All IsKey batch.keys
    → All IsValue batch.values
    → 24 + 20 * batch.n + length spare < 2 ^ 32
    → HasCounters s
    → (ks : List IpKey) × (vs : List IpValue) × Kept net pods
        (take batch.n batch.keys)
        (take batch.n batch.values)
        ks
        vs
      × (((ks ≡ []) × (tick net true batch (map pod_object pods) ≡ ok none))
          ⊎ ((0 < length ks)
              × (content : List ℕ) × (tick net true batch (map pod_object pods) ≡ ok (some content))
              × IsCounted s
                  (all_received ks vs)
                  (handle_payload s (post (record { items = content; spare = spare })))))
tick-IsCounted net batch pods s spare some_entries no_failure keys_fit values_fit hk hv small h =
    let (ks, vs, kept, outcome) =
      tick-Kept net batch pods some_entries no_failure keys_fit values_fit in
    let sizes = length-Kept kept in
    let fit =
      All-Kept IsKey IsValue kept (All-take IsKey batch.n batch.keys hk)
        (All-take IsValue batch.n batch.values hv) in
    let all_keys = length-take batch.n batch.keys keys_fit in
    let (buf, encoded, counted) =
      encoded_batch-IsCounted s ks vs spare h fit.0 fit.1 (omega (arith, sizes))
        (omega (arith, sizes, all_keys)) in
    (
      ks,
      vs,
      kept,
      elim outcome [
        | inl (nothing, posted) ↦ inl (nothing, posted)
        | inr (some_left, content, whole, posted) ↦ inr (
          some_left,
          content,
          posted,
          subst
              (λ items.
                IsCounted s (all_received ks vs)
                  (handle_payload s (post (record { items = items; spare = spare }))))
              (ok-injective (sym encoded ∙ whole)) counted,
        )
      ],
    )
