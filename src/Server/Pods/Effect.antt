-- ===== src/Server/Pods/Effect.antt =====
-- What the handlers of pod events do to the maps of cmd/server/main.go, as lookups.
use kubezonnet.Cluster.{Pod}
use kubezonnet.Prelude.{
  contains, ℕ, not, ◌&&◌, ◌||◌, ◌≡◌, refl, ap, ◌∙◌, String, List, [], ◌∷◌, none, some, Bool, true,
  false, arith, if◌then◌else◌, ◌==◌, Option-cases, Bool-cases, inl, inr,
}
use kubezonnet.Dict.{get, put, delete, get-put, get-delete, number_keys, string_keys}
use kubezonnet.Server.{Server, PodKey, key_of, pod_keys, same_pod, same_pod_iff}
use kubezonnet.Server.Pods.{index_ips, unindex_ips, store_pod, drop_pod}

-- The address is the one of the pod's host: the pod is on the host network.
abbrev pub is_host : ℕ → ℕ → Bool
is_host host_ip ip = not (host_ip == 0) && ip == host_ip

-- After the addresses are indexed.
record IsIndexed (host_ip : ℕ) (node_name : String) (key : PodKey) (ips : List ℕ) (s s' : Server)
    : Type 0 where
  pod_ips :
      (ip : ℕ)
      → get s'.pod_ip_index ip
        ≡ (if contains ips ip && not (is_host host_ip ip) then some key else get s.pod_ip_index ip)
  node_ips :
      (ip : ℕ)
      → get s'.node_ip_index ip
        ≡ (if contains ips ip && is_host host_ip ip then some node_name else get s.node_ip_index ip)
  rest : s' ≡ record s { pod_ip_index = s'.pod_ip_index; node_ip_index = s'.node_ip_index }

index_ips-IsIndexed :
    (host_ip : ℕ) (node_name : String) (key : PodKey) (ips : List ℕ) (s : Server)
    → IsIndexed host_ip node_name key ips s (index_ips host_ip node_name key ips s)
unfolding index_ips
index_ips-IsIndexed host_ip node_name key [] s = record {
  pod_ips = λ ip. refl;
  node_ips = λ ip. refl;
  rest = refl;
}
index_ips-IsIndexed host_ip node_name key (x ∷ ips) s = elim (Bool-cases (is_host host_ip x)) [
  | inl host ↦
      let h =
        index_ips-IsIndexed host_ip node_name key ips
          (record s { node_ip_index = put s.node_ip_index x node_name }) in
      rw host (record {
        pod_ips = λ ip. ground (arith, h.pod_ips ip);
        node_ips = λ ip. ground (arith, h.node_ips ip, get-put s.node_ip_index x node_name ip);
        rest = h.rest;
      })
  | inr no_host ↦
      let h =
        index_ips-IsIndexed host_ip node_name key ips
          (record s { pod_ip_index = put s.pod_ip_index x key }) in
      rw no_host (record {
        pod_ips = λ ip. ground (arith, h.pod_ips ip, get-put s.pod_ip_index x key ip);
        node_ips = λ ip. ground (arith, h.node_ips ip);
        rest = h.rest;
      })
]

unindex_ips_lem :
    (host_ip : ℕ) (ips : List ℕ) (s : Server) (ip : ℕ)
    → get (unindex_ips host_ip ips s).pod_ip_index ip
      ≡ (if contains ips ip && not (is_host host_ip ip) then none else get s.pod_ip_index ip)
unfolding unindex_ips
unindex_ips_lem host_ip [] s ip = refl
unindex_ips_lem host_ip (x ∷ ips) s ip = elim (Bool-cases (is_host host_ip x)) [
  | inl host ↦ ground (arith, unindex_ips_lem host_ip ips s ip)
  | inr no_host ↦ ground (
    arith,
    unindex_ips_lem host_ip ips (record s { pod_ip_index = delete s.pod_ip_index x }) ip,
    get-delete s.pod_ip_index x ip,
  )
]

unindex_ips_rest :
    (host_ip : ℕ) (ips : List ℕ) (s : Server)
    → unindex_ips host_ip ips s
      ≡ record s { pod_ip_index = (unindex_ips host_ip ips s).pod_ip_index }
unfolding unindex_ips
unindex_ips_rest host_ip [] s = refl
unindex_ips_rest host_ip (x ∷ ips) s =
    elim (host_ip == 0 || not (x == host_ip))
      as (λ b.
        let t =
          unindex_ips host_ip ips
            (if b then record s { pod_ip_index = delete s.pod_ip_index x } else s) in
        t ≡ record s { pod_ip_index = t.pod_ip_index }) [
          | true ↦
              unindex_ips_rest host_ip ips (record s { pod_ip_index = delete s.pod_ip_index x })
          | false ↦ unindex_ips_rest host_ip ips s
        ]

-- What `handlePod` leaves: the pod under its key, each of its addresses under the pod or, if it is
-- the host's, under the node; nothing else has changed.
pub record IsStored (host_ip : ℕ) (ips : List ℕ) (pod : Pod) (s s' : Server) : Type 0 where
  pub pod_ips :
      (ip : ℕ)
      → get s'.pod_ip_index ip ≡ (
          if contains ips ip && not (is_host host_ip ip)
          then some (key_of pod)
          else get s.pod_ip_index ip)
  pub node_ips :
      (ip : ℕ)
      → get s'.node_ip_index ip ≡ (
          if contains ips ip && is_host host_ip ip
          then some pod.node_name
          else get s.node_ip_index ip)
  pub pods :
      (key : PodKey)
      → get s'.pod_index key ≡ (
          if same_pod (key_of pod) key
          then some (record { node = pod.node_name; ips = ips })
          else get s.pod_index key)
  pub zones_kept : s'.node_index ≡ s.node_index
  pub counters_kept : s'.statistics ≡ s.statistics

pub store_pod-IsStored :
    (host_ip : ℕ) (ips : List ℕ) (pod : Pod) (s : Server)
    → IsStored host_ip ips pod s (store_pod host_ip ips pod s)
unfolding store_pod
store_pod-IsStored host_ip ips pod s =
    let s1 : Server = record s {
      pod_index = put s.pod_index (key_of pod) (record { node = pod.node_name; ips = ips });
    } in
    let h = index_ips-IsIndexed host_ip pod.node_name (key_of pod) ips s1 in
    record {
      pod_ips = h.pod_ips;
      node_ips = h.node_ips;
      pods = λ key.
          ap (λ t. get t.pod_index key) h.rest
          ∙ get-put s.pod_index (key_of pod) (record { node = pod.node_name; ips = ips }) key;
      zones_kept = ap (λ t. t.node_index) h.rest;
      counters_kept = ap (λ t. t.statistics) h.rest;
    }

-- What `onPodDelete` leaves: no entry under the pod's key in the index and in the counters, and no
-- entry for the addresses that the pod was indexed with, but those of its host; nothing else has
-- changed.
pub record IsDropped (host_ip : ℕ) (pod : Pod) (s s' : Server) : Type 0 where
  pub pod_ips :
      (ip : ℕ)
      → get s'.pod_ip_index ip ≡ (elim (get s.pod_index (key_of pod)) [
        | none ↦ get s.pod_ip_index ip
        | some info ↦
            if contains info.ips ip && not (is_host host_ip ip) then none else get s.pod_ip_index ip
      ])
  pub pods :
      (key : PodKey)
      → get s'.pod_index key ≡ (if same_pod (key_of pod) key then none else get s.pod_index key)
  pub counters :
      (key : PodKey)
      → get s'.statistics key ≡ (if same_pod (key_of pod) key then none else get s.statistics key)
  pub node_ips_kept : s'.node_ip_index ≡ s.node_ip_index
  pub zones_kept : s'.node_index ≡ s.node_index

pub drop_pod-IsDropped :
    (host_ip : ℕ) (pod : Pod) (s : Server) → IsDropped host_ip pod s (drop_pod host_ip pod s)
unfolding drop_pod
drop_pod-IsDropped host_ip pod s = elim (Option-cases (get s.pod_index (key_of pod))) [
  | inl absent ↦ record {
    pod_ips = λ ip. ground arith;
    pods = λ key. ground (arith, same_pod_iff (key_of pod) key);
    counters = λ key. ground (arith, get-delete s.statistics (key_of pod) key);
    node_ips_kept = ground arith;
    zones_kept = ground arith;
  }
  | inr (info, e) ↦
      let rest = unindex_ips_rest host_ip info.ips s in
      record {
        pod_ips = λ ip. ground (arith, unindex_ips_lem host_ip info.ips s ip);
        pods = λ key. ground (
          arith,
          ap (λ t. t.pod_index) rest,
          get-delete (unindex_ips host_ip info.ips s).pod_index (key_of pod) key,
        );
        counters = λ key. ground (
          arith,
          ap (λ t. t.statistics) rest,
          get-delete (unindex_ips host_ip info.ips s).statistics (key_of pod) key,
        );
        node_ips_kept = ground (arith, ap (λ t. t.node_ip_index) rest);
        zones_kept = ground (arith, ap (λ t. t.node_index) rest);
      }
]
