-- ===== src/Metrics/Tests.antt =====
-- Examples for the factory of metrics.
use node_util.Base.{◌≡◌, refl, true, List, [], ◌∷◌, ◌++◌, map, Option, none, some}
use mathlib.Core.List.{reverse}
use node_util.Metrics.{
  Text, Opts, Metric, MetricType, type_counter, type_gauge, MetricDescription, underscore, Factory,
  MetricCall, enables, counter, gauge_vec, document, describe, full_name,
}
use node_util.Metrics.Documented.{IsNamed}

-- BuildFQName.
abbrev build : Text → Text → Text → Text
build ns sub [] = []
build [] [] (n ∷ name) = n ∷ name
build (c ∷ ns) [] (n ∷ name) = (c ∷ ns) ++ (underscore ++ n ∷ name)
build [] (s ∷ sub) (n ∷ name) = (s ∷ sub) ++ (underscore ++ n ∷ name)
build (c ∷ ns) (s ∷ sub) (n ∷ name) =
    (c ∷ ns) ++ (underscore ++ ((s ∷ sub) ++ (underscore ++ n ∷ name)))

abbrev early : Opts
early = record { namespace = 1 ∷ []; subsystem = 2 ∷ []; name = 3 ∷ []; help = [] }

abbrev seen : Opts
seen = record { namespace = 97 ∷ []; subsystem = 98 ∷ []; name = 99 ∷ []; help = 100 ∷ [] }

abbrev wanted : Opts
wanted = record { namespace = 97 ∷ []; subsystem = []; name = 101 ∷ []; help = [] }

-- The first counter comes before metrics are enabled.
abbrev wishes : List MetricCall
wishes = counter early ∷ enables ∷ counter seen ∷ gauge_vec wanted ((120 ∷ []) ∷ []) ∷ []

abbrev keep_all : List Metric → Metric → Option (List Metric)
keep_all registry m = some (m ∷ registry)

abbrev kept : List Metric
kept =
    record { metric_type = type_counter; opts = seen; labels = none }
    ∷ record { metric_type = type_gauge; opts = wanted; labels = some ((120 ∷ []) ∷ []) }
    ∷ []

abbrev filled : Factory (List Metric)
filled = record {
  enabled = true;
  metrics = map describe kept;
  registry = reverse kept;
  registered = kept;
}

documented_names :
    map (λ x. x.name) (document filled) ≡ (97 ∷ 95 ∷ 98 ∷ 95 ∷ 99 ∷ []) ∷ (97 ∷ 95 ∷ 101 ∷ []) ∷ []
unfolding document describe
documented_names = refl
