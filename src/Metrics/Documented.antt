-- ===== src/Metrics/Documented.antt =====
-- What Document of service/metrics/factory.go lists, against the metrics that callers ask for.
use node_util.Base.{◌≡◌, ◌≢◌, Bool, true, List, [], ◌∷◌, ◌++◌, Option, none, some, if◌then◌else◌}
use node_util.Metrics.{
  Text, type_counter, type_gauge, type_histogram, type_summary, Metric, underscore, MetricCall,
  enables, counter, gauge, histogram, summary, counter_vec, gauge_vec, histogram_vec, summary_vec,
}

-- The metric that a call asks for; none for Enable.
unfoldable pub metric_of : MetricCall → Option Metric
metric_of enables = none
metric_of (counter o) = some (record { metric_type = type_counter; opts = o; labels = none })
metric_of (gauge o) = some (record { metric_type = type_gauge; opts = o; labels = none })
metric_of (histogram o) = some (record { metric_type = type_histogram; opts = o; labels = none })
metric_of (summary o) = some (record { metric_type = type_summary; opts = o; labels = none })
metric_of (counter_vec o ls) =
    some (record { metric_type = type_counter; opts = o; labels = some ls })
metric_of (gauge_vec o ls) = some (record { metric_type = type_gauge; opts = o; labels = some ls })
metric_of (histogram_vec o ls) =
    some (record { metric_type = type_histogram; opts = o; labels = some ls })
metric_of (summary_vec o ls) =
    some (record { metric_type = type_summary; opts = o; labels = some ls })

-- The metrics that are asked for once metrics are enabled.
unfoldable pub asked_for : Bool → List MetricCall → List Metric
asked_for on [] = []
asked_for on (c ∷ cs) = elim (metric_of c) [
  | none ↦ asked_for true cs
  | some m ↦ if on then m ∷ asked_for on cs else asked_for on cs
]

-- What Prometheus documents of BuildFQName: "joins the given three name components by _. Empty name
-- components are ignored. If the name parameter itself is empty, an empty string is returned".
pub record FqLaws (fq_name : Text → Text → Text → Text) : Type 0 where
  pub no_name : (ns sub : Text) → fq_name ns sub [] ≡ []
  pub no_parts : (name : Text) → fq_name [] [] name ≡ name
  pub joins_namespace :
      (ns name : Text) → ns ≢ [] → name ≢ [] → fq_name ns [] name ≡ ns ++ (underscore ++ name)
  pub joins_subsystem :
      (sub name : Text) → sub ≢ [] → name ≢ [] → fq_name [] sub name ≡ sub ++ (underscore ++ name)
  pub joins_all :
      (ns sub name : Text)
      → ns ≢ []
      → sub ≢ []
      → name ≢ []
      → fq_name ns sub name ≡ ns ++ (underscore ++ (sub ++ (underscore ++ name)))

-- Its namespace and its name are given.
pub record IsNamed (m : Metric) : Type 0 where
  pub namespace : m.opts.namespace ≢ []
  pub name : m.opts.name ≢ []
