-- ===== src/Server/Collect.antt =====
-- `Describe` and `Collect` of cmd/server/main.go: the counters as Prometheus metrics. The order
-- of Go's iteration is open, so a client sees the metrics up to their order.
pub mod Scrape
use mathlib.Core.List.{Perm}
use kubezonnet.Prelude.{ℕ, String, List, [], ◌∷◌}
use kubezonnet.Server.{Server, PodKey, pod_keys}

-- The description: name, help, labels.
pub record Desc : Type 0 where
  pub name : String
  pub help : String
  pub labels : List String

abbrev pub desc : Desc
desc = record {
  name = "pod_cross_zone_network_traffic_bytes_total";
  help = "The amount of cross-zone traffic the pod caused";
  labels = "namespace" ∷ "pod" ∷ [];
}

unfoldable pub describe : Server → List Desc
describe s = desc ∷ []

-- A counter with its value and the values of the labels; `F` is float64.
pub record Metric (F : Type 0) : Type 0 where
  pub described : Desc
  pub value : F
  pub label_values : List String

module _ {F : Type 0} (to_float : ℕ → F) where
  unfoldable pub metric_of : PodKey × ℕ → Metric F
  metric_of e = record {
    described = desc;
    value = to_float e.1;
    label_values = e.0.namespace ∷ e.0.name ∷ [];
  }

-- A range over the counters: its entries, in some order.
abbrev pub IsRange : Server → List (PodKey × ℕ) → Type 0
IsRange s order = Perm order s.statistics

module _ {F : Type 0} (to_float : ℕ → F) where
  -- The loop, over the entries in the order of the range.
  unfoldable pub collect : List (PodKey × ℕ) → List (Metric F)
  collect [] = []
  collect (e ∷ order) = metric_of to_float e ∷ collect order
