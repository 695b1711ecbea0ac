-- ===== src/PrometheusExporter/Counter.antt =====
-- The counters and the counter vectors of pkg/prometheus_exporter/aggregating_counter.go, and the
-- exemplars of exemplars.go. `T` is the protobuf timestamp; the conversion of the current time to it
-- is an argument, `none` where it fails. The rune limit of exemplars is a constant of the Prometheus
-- client, and an argument. A text of the model is valid UTF-8.
pub mod Laws
pub mod Collect
use Prim.Native.String.{count}
use slo_exporter.Prelude.{
  ℕ, ◌+◌, String, Bool, true, false, Option, none, some, List, [], ◌∷◌, ltb, length, if◌then◌else◌,
}
use slo_exporter.Prelude.Dict.{Dict, lookup, insert}
use slo_exporter.StringMap.{StringMap, sorted_keys, values_by_keys, to_string}
use slo_exporter.Runtime.{Float64}

pub record Exemplar (F T : Type 0) : Type 0 where
  pub value : F
  pub timestamp : T
  pub label : StringMap

-- The runes of newExemplar's loop.
unfoldable pub rune_count : ℕ → StringMap → ℕ
rune_count runes [] = runes
rune_count runes ((name, value) ∷ l) = rune_count (runes + count name + count value) l

unfoldable pub new_exemplar : {F T : Type 0} → ℕ → F → Option T → StringMap → Option (Exemplar F T)
new_exemplar max_runes value none l = none
new_exemplar max_runes value (some ts) l =
    if ltb max_runes (rune_count 0 l)
    then none
    else some (record { value = value; timestamp = ts; label = l })

pub record Counter (F T : Type 0) : Type 0 where
  pub value : F
  pub label_names : List String
  pub label_values : List String
  pub exemplar : Option (Exemplar F T)

-- counterVector; the lock makes each method atomic.
pub record CounterVector (F T : Type 0) : Type 0 where
  pub name : String
  pub help : String
  pub counters : Dict (Counter F T)

unfoldable pub new_counter_vector : {F T : Type 0} → String → String → CounterVector F T
new_counter_vector name help = record { name = name; help = help; counters = [] }

-- What addWithExemplar is given: the value, the labels, the exemplar's labels and the time.
pub record Addition (F T : Type 0) : Type 0 where
  pub value : F
  pub labels : StringMap
  pub exemplar_labels : StringMap
  pub now : Option T

module _ (fl : Float64) (max_runes : ℕ) {T : Type 0} where
  open fl use {F}

  -- (*counter).addWithExemplar
  unfoldable pub counter_add_with_exemplar : Counter F T → F → StringMap → Option T → Counter F T
  counter_add_with_exemplar e value exemplar_labels now =
      let added = record e { value = fl.add e.value value } in
      if ltb 0 (length exemplar_labels)
      then elim (new_exemplar max_runes value now exemplar_labels) [
        | none ↦ added
        | some exemplar ↦ record added { exemplar = some exemplar }
      ]
      else added

  -- The counter of a label set: the known one, or a new one at zero.
  unfoldable pub counter_for : CounterVector F T → StringMap → Counter F T
  counter_for e labels =
      let label_names = sorted_keys labels in
      elim (lookup (to_string labels) e.counters) [
        | some c ↦ c
        | none ↦ record {
          value = fl.zero;
          label_names = label_names;
          label_values = values_by_keys labels label_names;
          exemplar = none;
        }
      ]

  -- (*counterVector).addWithExemplar
  unfoldable pub add_with_exemplar : CounterVector F T → Addition F T → CounterVector F T
  unfolding counter_for counter_add_with_exemplar
  add_with_exemplar e a = record e {
    counters =
        insert (to_string a.labels)
          (counter_add_with_exemplar (counter_for e a.labels) a.value a.exemplar_labels a.now)
          e.counters;
  }

  -- A run of addWithExemplar calls.
  unfoldable pub add_all : CounterVector F T → List (Addition F T) → CounterVector F T
  add_all e [] = e
  add_all e (a ∷ more) = add_all (add_with_exemplar e a) more
