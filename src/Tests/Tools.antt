-- ===== src/Tests/Tools.antt =====
-- The access log server and the generator of rules at concrete inputs.
use slo_exporter.Prelude.{
  ℕ, ◌+◌, ◌≡◌, ◌↔◌, refl, String, true, none, some, List, [], ◌∷◌, ℤ, pos, length, All, is_some,
  map, not, ◌==◌, concat, if◌then◌else◌,
}
use slo_exporter.Prelude.Dict.{Dict, IsMap, lookup}
use slo_exporter.Event.{Raw}
use slo_exporter.Envoy.Common.{CommonProperties, Counters}
use slo_exporter.Envoy.Common.Errors.{field_errors}
use slo_exporter.Envoy.Entries.{RequestProperties, ResponseProperties, HttpEntry, emit_http}
use slo_exporter.Envoy.Entries.Events.{unusable_in, IsComplete, emit_http_iff}
use slo_exporter.RulesGenerator.Conditions.{
  BurnRateThreshold, Class, Domain, undefined_class, class_errors, type_errors, type_found,
  validate_references,
}
use slo_exporter.RulesGenerator.Rules.{as_rule_groups}
use slo_exporter.RulesGenerator.Validation.{
  reference_failed, found_in, time_range_is_valid, condition_is_valid, threshold_is_valid,
  alerting_is_valid, slo_type_is_valid, class_is_valid, classes_are_valid, domain_is_valid,
}
use slo_exporter.RulesGenerator.Validation.Laws.{IsDomain}
use slo_exporter.RulesGenerator.Generate.{
  Outside, domain_invalid, header_comment, write_domain, generate_domain, generate, generator_main,
}
use slo_exporter.RulesGenerator.Generate.Laws.{IsWritable, IsBegun, file_of, generate_iff}
use slo_exporter.Tests.Samples.{numbers}

abbrev print : ℕ → String
print n = "7"

abbrev print_int : ℤ → String
print_int n = "8"

abbrev common : CommonProperties
common = record {
  downstream_direct_remote_address = some none;
  downstream_remote_address = some (some (record { address = "10.0.0.1"; port_value = 80 }));
  downstream_local_address = none;
  route_name = "route";
  start_time = some none;
  time_to_first_downstream_tx_byte = none;
  time_to_first_upstream_rx_byte = some none;
  time_to_first_upstream_tx_byte = none;
  time_to_last_downstream_tx_byte = none;
  time_to_last_rx_byte = none;
  time_to_last_upstream_rx_byte = none;
  time_to_last_upstream_tx_byte = none;
  upstream_cluster = "shop";
  upstream_local_address = none;
  upstream_remote_address = none;
  upstream_transport_failure_reason = "";
  sample_rate = "1";
}

abbrev request : RequestProperties
request = record {
  authority = "shop";
  forwarded_for = "";
  original_path = "/";
  path = "/";
  referer = "";
  request_headers = ("accept", "*") ∷ [];
  request_body_bytes = 0;
  request_headers_bytes = 7;
  request_id = "1";
  request_method = "GET";
  scheme = "https";
  user_agent = "";
}

abbrev response : ResponseProperties
response = record {
  response_body_bytes = 7;
  response_code_details = "";
  response_code = 200;
  response_headers_bytes = 7;
  response_headers = [];
  response_trailers = [];
}

abbrev entries : List HttpEntry
entries =
    record {
      common = some common;
      protocol_version = "HTTP11";
      request = some request;
      response = some response;
    }
    ∷ []

abbrev at_zero : Counters
at_zero = record {
  address_format_unsupported = 0;
  invalid_timestamp = 0;
  invalid_duration = 0;
  unknown_log_type = 0;
  processing_stream = 0;
  http_entries = 0;
  tcp_entries = 0;
}

emit_http_iff_example :
    (is_some (emit_http print print_int {F = ℕ} 1 entries at_zero) ≡ true ↔ All IsComplete entries)
    × (All IsComplete entries
        → (events : List (Raw ℕ)) × (c : Counters) × (emit_http print print_int {F = ℕ} 1 entries
              at_zero
            ≡ some (events, c))
          × (length events ≡ length entries)
          × (c.http_entries ≡ at_zero.http_entries + length entries)
          × (field_errors c ≡ field_errors at_zero + unusable_in entries))
emit_http_iff_example = emit_http_iff print print_int {F = ℕ} 1 entries at_zero

abbrev classes : Dict (Class ℕ)
classes = ("critical", ("availability", record { value = 1; metadata = [] }) ∷ []) ∷ []

classes-IsMap : IsMap classes
unfolding lookup
classes-IsMap = (refl, tt)

abbrev known : BurnRateThreshold ℕ
known = record {
  condition = record { class = ""; slo_type = "availability"; time_range = "1h" };
  value = 13;
}

abbrev missing : BurnRateThreshold ℕ
missing = record {
  condition = record { class = "missing"; slo_type = ""; time_range = "6h" };
  value = 5;
}

abbrev domain_with : List (BurnRateThreshold ℕ) → Domain ℕ
domain_with thresholds = record {
  namespace = "web";
  enabled = true;
  version = pos 8;
  alerting = record { team = "sre"; escalate = ""; burn_rate_thresholds = some thresholds };
  classes = classes;
}

abbrev conf : Dict (Domain ℕ)
conf = ("shop", domain_with (known ∷ [])) ∷ ("stock", domain_with (known ∷ missing ∷ [])) ∷ []

abbrev files : Outside ℕ
files = record {
  read_file = λ path. if path == "slo.yaml" then some "shop and stock" else none;
  unmarshal = λ text. some conf;
  marshal = λ groups. elim groups [ [] ↦ none | g ∷ later ↦ some g.name ];
  create = λ fname. not (fname == "");
  write = λ fname text. true;
}

generate_iff_example :
    ((generate numbers 13 5 2 print_int files conf).1 ≡ none
      ↔ All
          (λ (p : String × Domain ℕ).
            IsDomain numbers 13 5 2 p.1 × IsWritable numbers 13 5 2 print_int files p)
          conf)
    × ((generate numbers 13 5 2 print_int files conf).1 ≡ none
        → (generate numbers 13 5 2 print_int files conf).0
          ≡ map (file_of numbers 13 5 2 print_int files) conf)
    × IsBegun numbers 13 5 2 print_int files conf (generate numbers 13 5 2 print_int files conf)
generate_iff_example =
    generate_iff numbers 13 5 2 print_int files conf (classes-IsMap, (classes-IsMap, tt))

-- The second domain refers to a class that is missing, after the file of the first one.
generate_example : generator_main numbers 13 5 2 print_int files ("generator" ∷ "slo.yaml" ∷ []) ≡ (
  ("shop.yaml", concat header_comment "slo_v8_slo_exporter_shop") ∷ [],
  some (domain_invalid "stock" (reference_failed (undefined_class "missing") ∷ [])),
)
unfolding generator_main generate generate_domain write_domain domain_is_valid alerting_is_valid
    threshold_is_valid condition_is_valid time_range_is_valid found_in classes_are_valid
    class_is_valid slo_type_is_valid validate_references class_errors type_errors type_found lookup
    as_rule_groups
generate_example = refl
