-- ===== src/SloEventProducer/Operator/Factory.antt =====
-- What the registry of pkg/slo_event_producer/operator.go makes of options.
use mathlib.Core.Option.{some-injective}
use mathlib.Core.Path.{subst}
use slo_exporter.Prelude.{
  String, ◌≡◌, ◌≢◌, refl, ◌↔◌, inl, inr, ◌==◌, none, some, arith, Option-cases, Bool-cases, All, [],
  ◌∷◌,
}
use slo_exporter.Prelude.Dict.{Dict, lookup}
use slo_exporter.Runtime.{Float64, TextLibrary}
use slo_exporter.SloEventProducer.Operator.{
  Operator, OperatorOptions, NumberComparison, new_operator, Factory, load_regexp, load_number,
  load_number_as, load_duration, registry, is_matching_regexp, is_not_matching_regexp,
  number_is_equal_to, number_is_not_equal_to, number_is_higher_than, number_is_equal_or_higher_than,
  number_is_equal_or_less_than, unknown_operator,
}
use slo_exporter.Prelude.Results.{ok, err}
use slo_exporter.SloEventProducer.Operator.Laws.{key_of}

module _ (fl : Float64) (lib : TextLibrary) where
  open fl use {F}
  open lib use {Regexp}

  -- What a factory makes reads the key of its options, and it reports no unknown operator.
  abbrev IsSound : Factory fl lib → Type 0
  IsSound make =
      (options : OperatorOptions)
      → ((op : Operator F Regexp) → make options ≡ ok op → key_of fl lib op ≡ options.key)
        × ((name : String) → make options ≢ err (unknown_operator name))

  load_regexp-IsSound :
      (make : String → Regexp → Operator F Regexp)
      → ((key : String) (r : Regexp) → key_of fl lib (make key r) ≡ key)
      → IsSound (load_regexp fl lib make)
  unfolding load_regexp
  load_regexp-IsSound make h options = elim (Option-cases (lib.compile options.value)) [
    | inl bad ↦ rw bad ((λ op e. absurd (cc e)), (λ name e. cc e))
    | inr (r, good) ↦ rw good ((λ op e. ground (arith, h options.key r)), (λ name e. cc e))
  ]

  load_number_as-IsSound :
      (name : String) (make : NumberComparison F → Operator F Regexp)
      → ((n : NumberComparison F) → key_of fl lib (make n) ≡ n.key)
      → IsSound (load_number_as fl lib name make)
  unfolding load_number_as load_number
  load_number_as-IsSound name make h options = elim (Option-cases (fl.parse options.value)) [
    | inl bad ↦ rw bad ((λ op e. absurd (cc e)), (λ other e. cc e))
    | inr (x, good) ↦ rw good (
      (λ op e. ground (arith, h (record { name = name; key = options.key; value = x }))),
      (λ other e. cc e),
    )
  ]

  load_duration-IsSound : IsSound (load_duration fl lib)
  unfolding load_duration
  load_duration-IsSound options = elim (Option-cases (lib.parse_duration options.value)) [
    | inl bad ↦ rw bad ((λ op e. absurd (cc e)), (λ name e. cc e))
    | inr (d, good) ↦ rw good ((λ op e. ground arith), (λ name e. cc e))
  ]

  registry-IsSound : All (λ entry. IsSound entry.1) (registry fl lib)
  unfolding registry
  registry-IsSound = (
    (λ options. ((λ op e. ground arith), (λ name e. cc e))),
    (
      (λ options. ((λ op e. ground arith), (λ name e. cc e))),
      (
        load_regexp-IsSound is_matching_regexp (λ key r. refl),
        (
          load_regexp-IsSound is_not_matching_regexp (λ key r. refl),
          (
            load_number_as-IsSound _ number_is_equal_to (λ n. refl),
            (
              load_number_as-IsSound _ number_is_not_equal_to (λ n. refl),
              (
                load_number_as-IsSound _ number_is_higher_than (λ n. refl),
                (
                  load_number_as-IsSound _ number_is_equal_or_higher_than (λ n. refl),
                  (
                    load_number_as-IsSound _ number_is_equal_or_less_than (λ n. refl),
                    (load_duration-IsSound, tt),
                  ),
                ),
              ),
            ),
          ),
        ),
      ),
    ),
  )

  found_IsSound :
      (m : Dict (Factory fl lib)) (name : String) (make : Factory fl lib)
      → All (λ entry. IsSound entry.1) m
      → lookup name m ≡ some make
      → IsSound make
  unfolding lookup
  found_IsSound [] name make h e = absurd (ground arith)
  found_IsSound ((k, f) ∷ m) name make h e = elim (Bool-cases (k == name)) [
    | inl here ↦ subst IsSound (some-injective _ _ (rw here at e)) h.0
    | inr there ↦ found_IsSound m name make h.1 (rw there at e)
  ]

  -- An operator that is made reads the key of its options.
  pub key_of-new_operator :
      (options : OperatorOptions) (op : Operator F Regexp)
      → new_operator fl lib options ≡ ok op
      → key_of fl lib op ≡ options.key
  unfolding new_operator
  key_of-new_operator options op h =
      elim (Option-cases (lookup options.operator (registry fl lib))) [
        | inl missing ↦ absurd (cc (rw (missing, new_operator) at h))
        | inr (make, found) ↦
            (found_IsSound (registry fl lib) options.operator make registry-IsSound found options).0
              op (rw (found, new_operator) at h)
      ]

  -- Making an operator reports an unknown operator exactly when its name is not in the registry.
  pub new_operator-unknown_iff :
      (options : OperatorOptions)
      → (new_operator fl lib options ≡ err (unknown_operator options.operator))
        ↔ (lookup options.operator (registry fl lib) ≡ none)
  unfolding new_operator
  new_operator-unknown_iff options =
      elim (Option-cases (lookup options.operator (registry fl lib))) [
        | inl missing ↦ ((λ h. missing), (λ h. rw (missing, new_operator)))
        | inr (make, found) ↦ (
          (λ h. absurd (
              (found_IsSound (registry fl lib) options.operator make registry-IsSound found
                  options).1
                options.operator (rw (found, new_operator) at h))),
          (λ h. cc),
        )
      ]
