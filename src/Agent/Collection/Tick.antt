-- ===== src/Agent/Collection/Tick.antt =====
-- A tick of agent/agent.go as a whole: which flows it posts.
use kubezonnet.Prelude.{
  ℕ, ◌≤◌, ◌<◌, ◌≡◌, ◌⊎◌, inl, inr, refl, ◌∙◌, List, [], ◌∷◌, map, none, some, true, false, length,
  take, length-take, ok, arith, All,
}
use kubezonnet.Cluster.{Pod, pod_object, Addresses}
use kubezonnet.Payload.{IpKey, IpValue, encode}
use kubezonnet.Payload.Encode.{wire, encode-eq-wire}
use kubezonnet.Agent.Collection.{
  convert_to_pods, filter_src_ip_on_current_host, Batch, is_failure, tick,
}
use kubezonnet.Agent.Collection.Filter.{Kept, done, keep, skip, filter_src_ip_on_current_host-Kept}

-- Every flow that stays has its value, and there are no more than came in.
pub length-Kept :
    {net : Addresses} {pods : List Pod} {keys ks : List IpKey} {values vs : List IpValue}
    → Kept net pods keys values ks vs
    → (length ks ≡ length vs) × (length ks ≤ length keys)
length-Kept (done values) = (refl, omega arith)
length-Kept (keep key value h kept) = let rest = length-Kept kept in omega (arith, rest)
length-Kept (skip key value h kept) = let rest = length-Kept kept in omega (arith, rest)

-- What holds of every flow holds of those that stay.
pub All-Kept {ℓ} :
    (P : IpKey → Type ℓ) (Q : IpValue → Type ℓ) {net : Addresses} {pods : List Pod}
    {keys ks : List IpKey} {values vs : List IpValue}
    → Kept net pods keys values ks vs
    → All P keys
    → All Q values
    → All P ks × All Q vs
All-Kept P Q (done values) hk hv = (tt, tt)
All-Kept P Q (keep key value h kept) hk hv =
    let rest = All-Kept P Q kept hk.1 hv.1 in ((hk.0, rest.0), (hv.0, rest.1))
All-Kept P Q (skip key value h kept) hk hv = All-Kept P Q kept hk.1 hv.1

convert_to_pods-map : (pods : List Pod) → convert_to_pods (map pod_object pods) ≡ ok pods
unfolding convert_to_pods
convert_to_pods-map [] = refl
convert_to_pods-map (pod ∷ pods) = rw (convert_to_pods-map pods)

module _ (net : Addresses) (batch : Batch) (pods : List Pod) where
  tick-posted :
      0 < batch.n
      → is_failure batch.error ≡ false
      → batch.n ≤ length batch.keys
      → batch.n ≤ length batch.values
      → (ks : List IpKey) (vs : List IpValue)
      → filter_src_ip_on_current_host net (take batch.n batch.keys) (take batch.n batch.values) pods
        ≡ ok (ks, vs)
      → length ks ≡ length vs
      → ((ks ≡ []) × (tick net true batch (map pod_object pods) ≡ ok none))
        ⊎ ((0 < length ks)
            × (content : List ℕ) × (encode ks vs ≡ ok content)
            × (tick net true batch (map pod_object pods) ≡ ok (some content)))
  unfolding tick
  tick-posted some_entries no_failure keys_fit values_fit [] vs e paired =
      inl (refl, ground (arith, convert_to_pods-map pods))
  tick-posted some_entries no_failure keys_fit values_fit (k ∷ ks) vs e paired =
      let whole : encode (k ∷ ks) vs ≡ ok (wire (k ∷ ks) vs) =
        encode-eq-wire (k ∷ ks) vs ∙ ground arith in
      inr (omega arith, wire (k ∷ ks) vs, whole, ground (arith, convert_to_pods-map pods, whole))

  -- If the read of the map gave some entries, without an error or with the one for the end of the
  -- map, and the informer's store holds pods, a tick with sending enabled does not panic: it posts
  -- the encoded flows of the batch of which the source is an IPv4 address of one of those pods, in
  -- order and each with its own value, or nothing if there are none.
  pub tick-Kept :
      0 < batch.n
      → is_failure batch.error ≡ false
      → batch.n ≤ length batch.keys
      → batch.n ≤ length batch.values
      → (ks : List IpKey) × (vs : List IpValue) × Kept net pods
          (take batch.n batch.keys)
          (take batch.n batch.values)
          ks
          vs
        × (((ks ≡ []) × (tick net true batch (map pod_object pods) ≡ ok none))
            ⊎ ((0 < length ks)
                × (content : List ℕ) × (encode ks vs ≡ ok content)
                × (tick net true batch (map pod_object pods) ≡ ok (some content))))
  tick-Kept some_entries no_failure keys_fit values_fit =
      let all_keys = length-take batch.n batch.keys keys_fit in
      let all_values = length-take batch.n batch.values values_fit in
      let (ks, vs, filtered, kept) =
        filter_src_ip_on_current_host-Kept net (take batch.n batch.keys) (take batch.n batch.values)
          pods (omega (arith, all_keys, all_values)) in
      (
        ks,
        vs,
        kept,
        tick-posted some_entries no_failure keys_fit values_fit ks vs filtered (length-Kept kept).0,
      )
