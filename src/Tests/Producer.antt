-- ===== src/Tests/Producer.antt =====
-- The producer of pkg/slo_event_producer at concrete events.
use slo_exporter.Prelude.{ℕ, ◌+◌, ◌≡◌, ◌↔◌, refl, true, false, some, [], ◌∷◌}
use slo_exporter.Prelude.Dict.{lookup}
use slo_exporter.Event.{SloClassification, Raw, Slo, event_key, is_classified, success, fail}
use slo_exporter.SloEventProducer.Operator.{evaluate}
use slo_exporter.SloEventProducer.Rule.{process_event, EvaluationRule, RuleOptions, SloMatcher}
use slo_exporter.SloEventProducer.Rule.Laws.{
  AnyTrue, Accepts, process_event_iff, process_event_result,
}
use slo_exporter.SloEventProducer.Evaluator.{ProducerMetrics, evaluate_rules}
use slo_exporter.SloEventProducer.Evaluator.Laws.{SomeAccepts, evaluate_rules-counters}
use slo_exporter.Tests.Samples.{
  numbers, texts, failed_request, unclassified_request, status_condition, availability,
  failed_event,
}

abbrev no_counts : ProducerMetrics
no_counts = record { unclassified_events_total = 0; did_not_match_any_rule = 0 }

made : process_event numbers texts availability failed_request ≡ some failed_event
unfolding process_event is_classified slo_exporter.SloEventProducer.Rule.matches_slo_classification
    slo_exporter.SloEventProducer.Rule.all_matchers evaluate lookup
    slo_exporter.SloEventProducer.Rule.mark_event_result
    slo_exporter.SloEventProducer.Rule.any_condition event_key slo_exporter.Event.get_text
made = refl

process_event_iff_example :
    ((s : Slo ℕ) × (process_event numbers texts availability failed_request ≡ some s))
    ↔ ((c : SloClassification) × Accepts numbers texts availability failed_request c)
process_event_iff_example = process_event_iff numbers texts availability failed_request

process_event_result_example :
    ((failed_event.result ≡ fail) ↔ AnyTrue numbers texts failed_request (status_condition ∷ []))
    × ((failed_event.result ≡ success)
        ↔ (¬ AnyTrue numbers texts failed_request (status_condition ∷ [])))
process_event_result_example =
    process_event_result numbers texts availability failed_request failed_event made

evaluate_rules-counters_example :
    (((evaluate_rules numbers texts
          (availability ∷ [])
          unclassified_request
          no_counts).0.unclassified_events_total
        ≡ 0 + 1)
      ↔ (is_classified unclassified_request ≡ false))
    × (((evaluate_rules numbers texts
            (availability ∷ [])
            unclassified_request
            no_counts).0.did_not_match_any_rule
          ≡ 0 + 1)
        ↔ ((is_classified unclassified_request ≡ true)
            × (¬ SomeAccepts numbers texts (availability ∷ []) unclassified_request)))
    × (((evaluate_rules numbers texts (availability ∷ []) unclassified_request no_counts).0
          ≡ no_counts)
        ↔ SomeAccepts numbers texts (availability ∷ []) unclassified_request)
evaluate_rules-counters_example =
    evaluate_rules-counters numbers texts (availability ∷ []) unclassified_request no_counts
