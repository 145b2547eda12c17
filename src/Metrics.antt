-- ===== src/Metrics.antt =====
-- service/metrics: the factory of factory.go, which keeps a description of each metric that it makes,
-- and the switch of metrics.go. Texts are lists of bytes. The registry of Prometheus is an argument.
pub mod Documented
mod Tests
use node_util.Base.{
  ℕ, ◌≡◌, ◌≢◌, ◌>>=◌, Bool, true, false, List, [], ◌∷◌, ◌++◌, Option, none, some, if◌then◌else◌,
}

abbrev pub Text : Type 0
Text = List ℕ

pub data MetricType : Type 0 where
  type_counter type_gauge type_histogram type_summary : MetricType

-- The options that Prometheus gets, as far as the factory reads them.
pub record Opts : Type 0 where
  pub namespace : Text
  pub subsystem : Text
  pub name : Text
  pub help : Text

pub record MetricDescription : Type 0 where
  pub metric_type : MetricType
  pub name : Text
  pub help : Text
  pub labels : List Text

-- A metric that is made through promauto: a single one, or a vector with its labels.
pub record Metric : Type 0 where
  pub metric_type : MetricType
  pub opts : Opts
  pub labels : Option (List Text)

-- What a constructor returns.
pub data Created : Type 0 where
  noop : MetricType → Created
  made : Metric → Created

abbrev pub underscore : Text
underscore = 95 ∷ []

unfoldable pub full_name : Text → Text → Text → Text
full_name ns [] name = (ns ++ underscore) ++ name
full_name ns (c ∷ subsystem) name = ((ns ++ underscore ++ c ∷ subsystem) ++ underscore) ++ name

abbrev pub labels_of : Option (List Text) → List Text
labels_of none = []
labels_of (some labels) = labels

-- `registered` lists what was made, with the registry in which it is.
pub record Factory (Registry : Type 0) : Type 0 where
  pub enabled : Bool
  pub metrics : List MetricDescription
  pub registry : Registry
  pub registered : List Metric

unfoldable pub describe : Metric → MetricDescription
unfolding full_name
describe m = record {
  metric_type = m.metric_type;
  name = full_name m.opts.namespace m.opts.subsystem m.opts.name;
  help = m.opts.help;
  labels = labels_of m.labels;
}

-- With, and Enable of metrics.go.
unfoldable pub new_factory : {Registry : Type 0} → Registry → Factory Registry
new_factory registry = record {
  enabled = false;
  metrics = [];
  registry = registry;
  registered = [];
}

unfoldable pub enable : {Registry : Type 0} → Factory Registry → Factory Registry
enable d = record d { enabled = true }

-- `register` is the registration by promauto, "which panics if it fails": none.
module _ {Registry : Type 0} (register : Registry → Metric → Option Registry) where
  -- The description is appended before the metric is made.
  unfoldable pub append_and_make : Factory Registry → Metric → Option (Factory Registry × Created)
  unfolding describe
  append_and_make d m =
      let described = record d { metrics = d.metrics ++ describe m ∷ [] } in
      register d.registry m >>= λ registry.
      some (record described { registry = registry; registered = d.registered ++ m ∷ [] }, made m)

  unfoldable pub new_counter : Factory Registry → Opts → Option (Factory Registry × Created)
  unfolding append_and_make
  new_counter d opts =
      if d.enabled
      then append_and_make d (record { metric_type = type_counter; opts = opts; labels = none })
      else some (d, noop type_counter)

  unfoldable pub new_counter_vec :
      Factory Registry → Opts → List Text → Option (Factory Registry × Created)
  unfolding append_and_make
  new_counter_vec d opts labels =
      if d.enabled
      then append_and_make d
          (record { metric_type = type_counter; opts = opts; labels = some labels })
      else some (d, noop type_counter)

  unfoldable pub new_gauge : Factory Registry → Opts → Option (Factory Registry × Created)
  unfolding append_and_make
  new_gauge d opts =
      if d.enabled
      then append_and_make d (record { metric_type = type_gauge; opts = opts; labels = none })
      else some (d, noop type_gauge)

  unfoldable pub new_gauge_vec :
      Factory Registry → Opts → List Text → Option (Factory Registry × Created)
  unfolding append_and_make
  new_gauge_vec d opts labels =
      if d.enabled
      then append_and_make d
          (record { metric_type = type_gauge; opts = opts; labels = some labels })
      else some (d, noop type_gauge)

  unfoldable pub new_histogram : Factory Registry → Opts → Option (Factory Registry × Created)
  unfolding append_and_make
  new_histogram d opts =
      if d.enabled
      then append_and_make d (record { metric_type = type_histogram; opts = opts; labels = none })
      else some (d, noop type_histogram)

  unfoldable pub new_histogram_vec :
      Factory Registry → Opts → List Text → Option (Factory Registry × Created)
  unfolding append_and_make
  new_histogram_vec d opts labels =
      if d.enabled
      then append_and_make d
          (record { metric_type = type_histogram; opts = opts; labels = some labels })
      else some (d, noop type_histogram)

  unfoldable pub new_summary : Factory Registry → Opts → Option (Factory Registry × Created)
  unfolding append_and_make
  new_summary d opts =
      if d.enabled
      then append_and_make d (record { metric_type = type_summary; opts = opts; labels = none })
      else some (d, noop type_summary)

  unfoldable pub new_summary_vec :
      Factory Registry → Opts → List Text → Option (Factory Registry × Created)
  unfolding append_and_make
  new_summary_vec d opts labels =
      if d.enabled
      then append_and_make d
          (record { metric_type = type_summary; opts = opts; labels = some labels })
      else some (d, noop type_summary)

-- A copy, so that the caller cannot change the factory's own.
unfoldable pub document : {Registry : Type 0} → Factory Registry → List MetricDescription
document d = d.metrics

-- The calls of the factory, and Enable.
pub data MetricCall : Type 0 where
  enables : MetricCall
  counter gauge histogram summary : Opts → MetricCall
  counter_vec gauge_vec histogram_vec summary_vec : Opts → List Text → MetricCall

abbrev pub factory_of :
    {Registry : Type 0} → Option (Factory Registry × Created) → Option (Factory Registry)
factory_of created = created >>= λ r. some r.0

module _ {Registry : Type 0} (register : Registry → Metric → Option Registry) where
  unfoldable pub make : Factory Registry → MetricCall → Option (Factory Registry)
  unfolding new_counter new_counter_vec new_gauge new_gauge_vec new_histogram new_histogram_vec
      new_summary new_summary_vec enable
  make d enables = some (enable d)
  make d (counter opts) = factory_of (new_counter register d opts)
  make d (gauge opts) = factory_of (new_gauge register d opts)
  make d (histogram opts) = factory_of (new_histogram register d opts)
  make d (summary opts) = factory_of (new_summary register d opts)
  make d (counter_vec opts labels) = factory_of (new_counter_vec register d opts labels)
  make d (gauge_vec opts labels) = factory_of (new_gauge_vec register d opts labels)
  make d (histogram_vec opts labels) = factory_of (new_histogram_vec register d opts labels)
  make d (summary_vec opts labels) = factory_of (new_summary_vec register d opts labels)

  unfoldable pub make_all : Factory Registry → List MetricCall → Option (Factory Registry)
  unfolding make
  make_all d [] = some d
  make_all d (c ∷ cs) = make d c >>= λ e. make_all e cs
