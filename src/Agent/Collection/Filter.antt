-- ===== src/Agent/Collection/Filter.antt =====
-- The filter of agent/agent.go, against a relation between the flows that come in and those that
-- stay.
use kubezonnet.Prelude.{
  ℕ, ◌+◌, ◌≤◌, ◌≡◌, refl, String, List, [], ◌∷◌, word, none, some, Bool, true, false, ◌||◌, length,
  get_elem?, drop, contains, ok, arith, Option-cases, inl, inr,
}
use kubezonnet.Dict.{get, put, get-put, number_keys}
use kubezonnet.Net.{to4}
use kubezonnet.Cluster.{Pod, Addresses, ip_numbers}
use kubezonnet.Payload.{IpKey, IpValue, value_at}
use kubezonnet.Payload.Encode.{get_elem?-drop}
use kubezonnet.ByteOrder.{ntohl}
use kubezonnet.Agent.Address.{ip_to_uint32-eq-word}
use kubezonnet.Agent.Collection.{
  IpSet, add_pod_ips, add_pods, filter_from, filter_src_ip_on_current_host,
}

-- The number is an address of one of the pods.
abbrev pub is_local : Addresses → List Pod → ℕ → Bool
is_local net [] ip = false
is_local net (pod ∷ pods) ip = contains (ip_numbers net pod.pod_ips) ip || is_local net pods ip

-- The flows of which the source is local, in order, each with its value.
pub data Kept (net : Addresses) (pods : List Pod)
    : List IpKey → List IpValue → List IpKey → List IpValue → Type 0 where
  done : (values : List IpValue) → Kept net pods [] values [] []
  keep :
      {keys ks : List IpKey} {values vs : List IpValue} (key : IpKey) (value : IpValue)
      → is_local net pods (ntohl key.src_ip) ≡ true
      → Kept net pods keys values ks vs
      → Kept net pods (key ∷ keys) (value ∷ values) (key ∷ ks) (value ∷ vs)
  skip :
      {keys ks : List IpKey} {values vs : List IpValue} (key : IpKey) (value : IpValue)
      → is_local net pods (ntohl key.src_ip) ≡ false
      → Kept net pods keys values ks vs
      → Kept net pods (key ∷ keys) (value ∷ values) ks vs

-- A number is in the set.
abbrev is_in : IpSet → ℕ → Bool
is_in m ip = elim (get m ip) [ none ↦ false | some found ↦ true ]

abbrev put_all : List ℕ → IpSet → IpSet
put_all [] m = m
put_all (n ∷ ns) m = put_all ns (put m n tt)

is_in-put_all :
    (ns : List ℕ) (m : IpSet) (ip : ℕ) → is_in (put_all ns m) ip ≡ (contains ns ip || is_in m ip)
is_in-put_all [] m ip = refl
is_in-put_all (n ∷ ns) m ip = ground (arith, is_in-put_all ns (put m n tt) ip, get-put m n tt ip)

value_at_lem :
    (values : List IpValue) (i : ℕ) (v : IpValue)
    → get_elem? values i ≡ some v
    → value_at values i ≡ ok v
unfolding value_at
value_at_lem values i v e = rw (value_at, e)

module _ (net : Addresses) where
  add_pod_ips_lem :
      (texts : List String) (m : IpSet)
      → add_pod_ips net texts m ≡ ok (put_all (ip_numbers net texts) m)
  unfolding add_pod_ips
  add_pod_ips_lem [] m = refl
  add_pod_ips_lem (s ∷ texts) m = elim (Option-cases (net.parse_ip s)) [
    | inl no_ip ↦ ground (arith, add_pod_ips_lem texts m)
    | inr (ip, e) ↦ elim (Option-cases (to4 ip)) [
      | inl not_v4 ↦ ground (arith, add_pod_ips_lem texts m)
      | inr (q, f) ↦ ground (
        arith,
        ip_to_uint32-eq-word net.v6_text ip q f (net.parse_ip_bytes s ip q e f),
        add_pod_ips_lem texts (put m (word q.a q.b q.c q.d) tt),
      )
    ]
  ]

  abbrev put_pods : List Pod → IpSet → IpSet
  put_pods [] m = m
  put_pods (pod ∷ pods) m = put_pods pods (put_all (ip_numbers net pod.pod_ips) m)

  add_pods_lem : (pods : List Pod) (m : IpSet) → add_pods net pods m ≡ ok (put_pods pods m)
  unfolding add_pods
  add_pods_lem [] m = refl
  add_pods_lem (pod ∷ pods) m =
      rw (add_pod_ips_lem pod.pod_ips m)
        (add_pods_lem pods (put_all (ip_numbers net pod.pod_ips) m))

  is_in-put_pods :
      (pods : List Pod) (m : IpSet) (ip : ℕ)
      → is_in (put_pods pods m) ip ≡ (is_local net pods ip || is_in m ip)
  is_in-put_pods [] m ip = refl
  is_in-put_pods (pod ∷ pods) m ip =
      let here = put_all (ip_numbers net pod.pod_ips) m in
      ground (arith, is_in-put_pods pods here ip, is_in-put_all (ip_numbers net pod.pod_ips) m ip)

  -- The loop, against the values that are left at its index.
  filter_from-Kept :
      (pods : List Pod) (m : IpSet) (keys : List IpKey) (values vs : List IpValue) (i : ℕ)
      → ((ip : ℕ) → is_in m ip ≡ is_local net pods ip)
      → drop i values ≡ vs
      → length keys ≤ length vs
      → (ks : List IpKey) × (ws : List IpValue) × (filter_from m keys values i ≡ ok (ks, ws))
        × Kept net pods keys vs ks ws
  unfolding filter_from
  filter_from-Kept pods m [] values vs i h e enough = ([], [], refl, done vs)
  filter_from-Kept pods m (key ∷ keys) values [] i h e enough = absurd (omega arith)
  filter_from-Kept pods m (key ∷ keys) values (v ∷ vs) i h e enough =
      let here = get_elem?-drop i values vs v e in
      let (ks, ws, rest, kept) =
        filter_from-Kept pods m keys values vs (i + 1) h here.1 (omega arith) in
      let inside = h (ntohl key.src_ip) in
      elim (Option-cases (get m (ntohl key.src_ip))) [
        | inl absent ↦
            (ks, ws, ground (arith, absent, rest), skip key v (ground (arith, inside, absent)) kept)
        | inr (found, present) ↦ (
          key ∷ ks,
          v ∷ ws,
          ground (arith, present, rest, value_at_lem values i v here.0),
          keep key v (ground (arith, inside, present)) kept,
        )
      ]

  -- If every key has a value, the filter returns, without a panic, exactly the flows of which the
  -- source is an IPv4 address of a pod of the node, in order and each with its own value.
  pub filter_src_ip_on_current_host-Kept :
      (keys : List IpKey) (values : List IpValue) (pods : List Pod)
      → length keys ≤ length values
      → (ks : List IpKey) × (vs : List IpValue) × (filter_src_ip_on_current_host net keys values
            pods
          ≡ ok (ks, vs))
        × Kept net pods keys values ks vs
  unfolding filter_src_ip_on_current_host get
  filter_src_ip_on_current_host-Kept keys values pods enough = rw (add_pods_lem pods []) (
      filter_from-Kept pods (put_pods pods []) keys values values 0
        (λ ip. ground (arith, is_in-put_pods pods [] ip)) refl enough)
