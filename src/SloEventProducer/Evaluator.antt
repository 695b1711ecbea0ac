-- ===== src/SloEventProducer/Evaluator.antt =====
-- The evaluator and the module of pkg/slo_event_producer (event_evaluator.go and
-- slo_event_producer.go). Reading a rules file is a parameter; the logs and the timing of an
-- evaluation are not modelled; a channel is the list of what is sent to it.
pub mod Laws
use slo_exporter.Prelude.{
  ℕ, ◌+◌, String, Bool, true, false, not, Option, none, some, List, [], ◌∷◌, ◌++◌, length, nat_eq,
  if◌then◌else◌,
}
use slo_exporter.Event.{Raw, Slo, is_classified}
use slo_exporter.Runtime.{Float64, TextLibrary}
use slo_exporter.Prelude.Results.{Result, ok, err, ◌>>=◌}
use slo_exporter.SloEventProducer.Rule.{
  RuleOptions, RuleError, EvaluationRule, new_evaluation_rule, process_event,
}

-- The counters of slo_event_producer.go.
pub record ProducerMetrics : Type 0 where
  pub unclassified_events_total : ℕ
  pub did_not_match_any_rule : ℕ

-- The errors of New: a file that cannot be loaded, or the rules that cannot be made.
pub data NewError (L : Type 0) : Type 0 where
  not_loaded : L → NewError L
  bad_rules : List RuleError → NewError L

module _ (fl : Float64) (lib : TextLibrary) where
  open fl use {F}
  open lib use {Regexp}

  abbrev pub Rules : Type 0
  Rules = List (EvaluationRule F Regexp)

  -- NewEventEvaluatorFromConfig: a rule that cannot be made leaves its error, and the others are
  -- made all the same.
  unfoldable pub new_event_evaluator_from_config : List RuleOptions → Rules × List RuleError
  new_event_evaluator_from_config [] = ([], [])
  new_event_evaluator_from_config (opts ∷ rest) =
      let (rules, errors) = new_event_evaluator_from_config rest in
      elim (new_evaluation_rule fl lib opts) [
        | ok rule ↦ (rule ∷ rules, errors)
        | err e ↦ (rules, e ∷ errors)
      ]

  -- The loop of NewEventEvaluatorFromConfigFiles, with `load` for configFromFile.
  unfoldable pub load_all :
      {L : Type 0}
      → (String → Result L (List RuleOptions))
      → List String
      → Result L (List RuleOptions)
  load_all load [] = ok []
  load_all load (path ∷ paths) = do
    tmp_config ← load path
    rest ← load_all load paths
    ok (tmp_config ++ rest)

  abbrev pub checked : {L : Type 0} → Rules → List RuleError → Result (NewError L) Rules
  checked rules [] = ok rules
  checked rules (e ∷ es) = err (bad_rules (e ∷ es))

  unfoldable pub new_event_evaluator_from_config_files :
      {L : Type 0}
      → (String → Result L (List RuleOptions))
      → List String
      → Result (NewError L) Rules
  unfolding load_all
  new_event_evaluator_from_config_files load paths = elim (load_all load paths) [
    | err l ↦ err (not_loaded l)
    | ok options ↦
        let (rules, errors) = new_event_evaluator_from_config options in checked rules errors
  ]

  -- The loop of Evaluate: what the rules send to the channel, in their order.
  unfoldable pub matched_events : Rules → Raw F → List (Slo F)
  matched_events [] e = []
  matched_events (rule ∷ rules) e =
      let rest = matched_events rules e in
      elim (process_event fl lib rule e) [ none ↦ rest | some s ↦ s ∷ rest ]

  unfoldable pub evaluate_rules : Rules → Raw F → ProducerMetrics → ProducerMetrics × List (Slo F)
  evaluate_rules rules e m =
      if not (is_classified e)
      then (record m { unclassified_events_total = m.unclassified_events_total + 1 }, [])
      else let events = matched_events rules e in
        if nat_eq (length events) 0
        then (record m { did_not_match_any_rule = m.did_not_match_any_rule + 1 }, events)
        else (m, events)

  -- Run: the loop over the input channel.
  unfoldable pub run : Rules → ProducerMetrics → List (Raw F) → ProducerMetrics × List (Slo F)
  run rules m [] = (m, [])
  run rules m (e ∷ es) =
      let (m', events) = evaluate_rules rules e m in
      let (m'', rest) = run rules m' es in (m'', events ++ rest)
