-- ===== src/Server/History/Scraped.antt =====
-- What Prometheus reads of cmd/server/main.go after a history.
use mathlib.Core.List.{
  Mem, Nodup, not-mem-nil, eq-or-mem_of_mem-cons, mem-cons_self, mem-cons_of_mem, mem-map_of_mem,
  mem-cast, exists_of_mem-map,
}
use mathlib.Core.List.Perm
use mathlib.Core.Logic.Or
use mathlib.Core.Logic.{∥∥₁_map}
use kubezonnet.Prelude.{
  ℕ, ◌≡◌, ◌≢◌, ap, sym, ◌∙◌, List, [], ◌∷◌, map, u64, arith, Bool-cases, inl, inr,
}
use kubezonnet.Dict.{Dict, get, HasDistinctKeys}
use kubezonnet.Cluster.{Addresses}
use kubezonnet.Server.{Server, PodKey, pod_keys, same_pod, same_pod_iff}
use kubezonnet.Server.Collect.{desc, Metric, metric_of, IsRange, collect}
use kubezonnet.Server.Collect.Scrape.{collect-Perm, not_listed, labels}
use kubezonnet.Server.Traffic.{count_at}
use kubezonnet.Server.Steps.{Reach}
use kubezonnet.Server.Steps.Invariant.{Reach-IsConsistent}
use kubezonnet.Server.History.{balance, Reach-balance}

get-Mem : (m : Dict PodKey ℕ) (k : PodKey) (n : ℕ) → count_at m k ≡ n → n ≢ 0 → Mem (k, n) m
unfolding get
get-Mem [] k n h counted = ground arith
get-Mem ((j, v) ∷ m) k n h counted = elim (Bool-cases (same_pod j k)) [
  | inl e ↦
      let same_key : j ≡ k = (same_pod_iff j k).0 e in
      let same_count : v ≡ n = ground arith in mem-cast (cc) mem-cons_self
  | inr e ↦ mem-cons_of_mem (j, v) (get-Mem m k n (ground arith) counted)
]

Mem-get :
    (m : Dict PodKey ℕ) (k : PodKey) (n : ℕ) → HasDistinctKeys m → Mem (k, n) m → count_at m k ≡ n
unfolding get
Mem-get [] k n d h = absurd (not-mem-nil h)
Mem-get ((j, v) ∷ m) k n d h =
    Or.elim {C = count_at ((j, v) ∷ m) k ≡ n} (hlevel) (eq-or-mem_of_mem-cons h)
      (λ e.
        let same_key : k ≡ j = ap (λ p. p.0) e in
        let same_count : n ≡ v = ap (λ p. p.1) e in ground (arith, same_pod_iff j k))
      (λ later.
        let other : j ≢ k =
          λ e. not_listed m j n d.0 (mem-map_of_mem labels (mem-cast (ap (λ i. (i, n)) e) later)) in
        ground (arith, other, same_pod_iff j k, Mem-get m k n d.1 later))

-- The metric that a pod should have, for a number of bytes of any size.
abbrev pub metric_for : {F : Type 0} → (ℕ → F) → PodKey → ℕ → Metric F
metric_for to_float key n = record {
  described = desc;
  value = to_float (u64 n);
  label_values = key.namespace ∷ key.name ∷ [];
}

-- A counter that is not 0 is shown.
pub shown :
    {F : Type 0} (to_float : ℕ → F) (s : Server) (order : List (PodKey × ℕ)) (key : PodKey) (n : ℕ)
    → IsRange s order
    → HasDistinctKeys s.statistics
    → count_at s.statistics key ≡ u64 n
    → u64 n ≢ 0
    → Mem (metric_for to_float key n) (collect to_float order)
unfolding metric_of
shown to_float s order key n range distinct counted some_bytes =
    (Perm.mem_iff (collect-Perm to_float s order range distinct).0).1
      (mem-map_of_mem (metric_of to_float) (get-Mem s.statistics key (u64 n) counted some_bytes))

-- Whatever the order in which the counters are iterated over, a scrape after any events and batches
-- has no two metrics with the same labels, each of its metrics has the namespace and the name of
-- some pod as its labels and the balance of that pod modulo 2 ^ 64 as its value, and each pod whose
-- balance is not 0 modulo 2 ^ 64 has such a metric.
pub Reach-scrape :
    {net : Addresses} {s : Server} {F : Type 0} (r : Reach net s) (to_float : ℕ → F)
    (order : List (PodKey × ℕ))
    → IsRange s order
    → Nodup (map (λ m. m.label_values) (collect to_float order))
      × ((m : Metric F)
          → Mem m (collect to_float order)
          → ∥ ((key : PodKey) × (m ≡ metric_for to_float key (balance r key))) ∥₁)
      × ((key : PodKey)
          → u64 (balance r key) ≢ 0
          → Mem (metric_for to_float key (balance r key)) (collect to_float order))
unfolding metric_of
Reach-scrape {net} {s} {F} r to_float order range =
    let distinct = (Reach-IsConsistent r).counters_distinct in
    let scraped = collect-Perm to_float s order range distinct in
    (
      scraped.1,
      λ m listed. ∥∥₁_map (exists_of_mem-map ((Perm.mem_iff scraped.0).0 listed)) (λ found.
          let (e, kept, is_metric) = found in
          (
            e.0,
            sym is_metric
                ∙ ap (λ n. metric_of to_float (e.0, n))
                    (sym (Mem-get s.statistics e.0 e.1 distinct kept) ∙ Reach-balance r e.0),
          )),
      λ key. shown to_float s order key (balance r key) range distinct (Reach-balance r key),
    )
