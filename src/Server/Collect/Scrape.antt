-- ===== src/Server/Collect/Scrape.antt =====
-- What a client of cmd/server/main.go sees in the metrics, whatever the order of the iteration.
use mathlib.Core.List.{
  Perm, Mem, Nodup, Nodup-nil, Nodup-cons, not-mem-nil, eq-or-mem_of_mem-cons, map-map,
}
use mathlib.Core.List.Perm
use mathlib.Core.Logic.Or
use mathlib.Core.HLevel.{⊥_prop}
use kubezonnet.Prelude.{ℕ, ◌≡◌, refl, ap, String, List, [], ◌∷◌, map, none, arith}
use kubezonnet.Dict.{Dict, get, HasDistinctKeys}
use kubezonnet.Server.{Server, PodKey, pod_keys, same_pod_iff}
use kubezonnet.Server.Collect.{metric_of, IsRange, collect}

module _ {F : Type 0} (to_float : ℕ → F) where
  collect-map :
      (order : List (PodKey × ℕ)) → collect to_float order ≡ map (metric_of to_float) order
  unfolding collect
  collect-map [] = refl
  collect-map (e ∷ order) = ap (◌∷◌ (metric_of to_float e)) (collect-map order)

-- The values of the labels of a key.
abbrev pub labels : PodKey × ℕ → List String
labels e = e.0.namespace ∷ e.0.name ∷ []

-- A key that has no counter has no metric.
pub not_listed :
    (m : Dict PodKey ℕ) (k : PodKey) (n : ℕ) → get m k ≡ none → ¬ Mem (labels (k, n)) (map labels m)
unfolding get
not_listed [] k n h listed = not-mem-nil listed
not_listed ((j, v) ∷ m) k n h listed =
    Or.elim ⊥_prop (eq-or-mem_of_mem-cons listed)
      (λ e. let same_key : k ≡ j = ground arith in ground (arith, same_pod_iff j k))
      (λ later. not_listed m k n (ground arith) later)

labels-Nodup : (m : Dict PodKey ℕ) → HasDistinctKeys m → Nodup (map labels m)
labels-Nodup [] h = Nodup-nil
labels-Nodup ((k, n) ∷ m) h = Nodup-cons.1 (not_listed m k n h.0, labels-Nodup m h.1)

-- Whatever the order in which the counters are iterated over, a scrape has one metric for each
-- counter, with its value and the namespace and name of its key, and, in a state with one counter
-- for each key, no two metrics with the same labels.
pub collect-Perm :
    {F : Type 0} (to_float : ℕ → F) (s : Server) (order : List (PodKey × ℕ))
    → IsRange s order
    → HasDistinctKeys s.statistics
    → Perm (collect to_float order) (map (metric_of to_float) s.statistics)
      × Nodup (map (λ m. m.label_values) (collect to_float order))
unfolding metric_of
collect-Perm to_float s order range distinct = (
  rw (collect-map to_float order) (Perm.map (metric_of to_float) range),
  rw (collect-map to_float order, map-map)
      (Perm.nodup (Perm.symm (Perm.map labels range)) (labels-Nodup s.statistics distinct)),
)
