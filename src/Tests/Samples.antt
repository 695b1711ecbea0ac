-- ===== src/Tests/Samples.antt =====
-- Concrete parameters and events for the tests: numbers for float64, and texts for regular
-- expressions.
use slo_exporter.Prelude.{
  ℕ, ◌+◌, ◌-◌, String, not, ◌==◌, none, some, [], ◌∷◌, ltb, nat_eq, pos, if◌then◌else◌,
}
use slo_exporter.Event.{SloClassification, Raw, Slo, fail}
use slo_exporter.Runtime.{Float64, TextLibrary}
use slo_exporter.SloEventProducer.Operator.{
  Operator, number_is_equal_or_higher_than, is_not_equal_to,
}
use slo_exporter.SloEventProducer.Rule.{EvaluationRule}
use slo_exporter.PrometheusExporter.Exporter.{PrometheusExporterConfig}

abbrev pub numbers : Float64
numbers = record {
  F = ℕ;
  zero = 0;
  one = 1;
  add = λ a b. a + b;
  sub = λ a b. a - b;
  lt = ltb;
  le = λ a b. not (ltb b a);
  eq = nat_eq;
  parse = λ s. if s == "500" then some 500 else if s == "200" then some 200 else none;
  format = λ n. if nat_eq n 500 then "500" else "200";
}

abbrev pub texts : TextLibrary
texts = record {
  Regexp = String;
  compile = λ s. if s == "(" then none else some s;
  match_string = λ r s. r == s;
  parse_duration = λ s. if s == "1s" then some (pos 1000000000) else none;
}

abbrev pub web : SloClassification
web = record { domain = "web"; app = "shop"; class = "critical" }

abbrev pub failed_request : Raw ℕ
failed_request = record {
  metadata = ("__eventKey", "buy") ∷ ("status", "500") ∷ ("method", "GET") ∷ [];
  slo_classification = some web;
  quantity = 2;
}

abbrev pub unclassified_request : Raw ℕ
unclassified_request = record {
  metadata = ("__eventKey", "buy") ∷ ("status", "200") ∷ [];
  slo_classification = none;
  quantity = 1;
}

abbrev pub status_condition : Operator ℕ String
status_condition =
    number_is_equal_or_higher_than
      (record { name = "numberIsEqualOrHigherThan"; key = "status"; value = 500 })

abbrev pub availability : EvaluationRule ℕ String
availability = record {
  slo_matcher = record { domain_regexp = some "web"; class_regexp = none; app_regexp = none };
  metadata_matcher = is_not_equal_to "method" "POST" ∷ [];
  failure_conditions = status_condition ∷ [];
  additional_metadata = ("slo_type", "availability") ∷ [];
}

abbrev pub failed_event : Slo ℕ
failed_event = record {
  key = "buy";
  result = fail;
  domain = "web";
  class = "critical";
  app = "shop";
  metadata = ("slo_type", "availability") ∷ [];
  quantity = 2;
  original_event = failed_request;
}

abbrev pub config : PrometheusExporterConfig
config = record {
  metric_name = "slo_events_total";
  label_names = record {
    result = "result";
    slo_domain = "slo_domain";
    slo_class = "slo_class";
    slo_app = "slo_app";
    event_key = "event_key";
  };
  maximum_unique_event_keys = pos 1;
  exceeded_key_limit_placeholder = "too-many";
  exemplar_metadata_keys = [];
}
