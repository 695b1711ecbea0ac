-- ===== src/RulesGenerator/Generate.antt =====
-- main of tools/slo-rules-generator/slo-rules-generator.go. The reading of the configuration, YAML
-- and the calls on files are parameters; the printed lines are left out.
pub mod Laws
pub mod Returns
use slo_exporter.Prelude.{
  ℕ, ℤ, String, Bool, true, false, not, Option, none, some, List, [], ◌∷◌, concat, if◌then◌else◌,
}
use slo_exporter.Prelude.Dict.{Dict}
use slo_exporter.Runtime.{Float64}
use slo_exporter.RulesGenerator.Conditions.{Domain}
use slo_exporter.RulesGenerator.Rules.{RuleGroup, as_rule_groups}
use slo_exporter.RulesGenerator.Validation.{
  DomainError, default_timerange_thresholds, domain_is_valid,
}

-- Where main calls os.Exit, with the name of the domain or of the file that it prints.
pub data GeneratorExit (F : Type 0) : Type 0 where
  wrong_usage : GeneratorExit F
  configuration_unread : GeneratorExit F
  configuration_unparsed : GeneratorExit F
  domain_invalid : String → List (DomainError F) → GeneratorExit F
  not_marshalled : String → GeneratorExit F
  not_created : String → GeneratorExit F
  not_written : String → GeneratorExit F

-- The code of the exit; none is where main returns.
abbrev pub generator_code : {F : Type 0} → Option (GeneratorExit F) → ℕ
generator_code none = 0
generator_code (some wrong_usage) = 1
generator_code (some configuration_unread) = 2
generator_code (some configuration_unparsed) = 2
generator_code (some (domain_invalid name errs)) = 2
generator_code (some (not_marshalled name)) = 2
generator_code (some (not_created name)) = 1
generator_code (some (not_written name)) = 1

abbrev pub header_comment : String
header_comment =
    "#\n# This file has been generated by slo-rules-generator.\n# DO NOT EDIT MANUALLY!\n#\n"

-- The calls that can fail: os.ReadFile with yaml.Unmarshal, yaml.Marshal, os.Create, and the writing
-- of a text to a file of a name.
pub record Outside (F : Type 0) : Type 0 where
  pub read_file : String → Option String
  pub unmarshal : String → Option (Dict (Domain F))
  pub marshal : List RuleGroup → Option String
  pub create : String → Bool
  pub write : String → String → Bool

-- The files with their contents, apart from what a write that fails has written.
abbrev pub Written : Type 0 → Type 0
Written F = List (String × String) × Option (GeneratorExit F)

abbrev pub file_name : String → String
file_name domain_name = concat domain_name ".yaml"

module _ (fl : Float64) (of_1h of_6h of_1d : fl.F) (print_int : ℤ → String)
    (out : Outside fl.F) where
  open fl use {F}

  abbrev pub groups_of : String → Domain F → List RuleGroup
  groups_of name d =
      as_rule_groups fl (default_timerange_thresholds fl of_1h of_6h of_1d) print_int d name

  -- The rest of the loop's body, from the creation of the file; `rest` is what the later domains do.
  unfoldable pub write_domain : String → String → Written F → Written F
  write_domain fname text rest =
      if not (out.create fname)
      then ([], some (not_created fname))
      else if not (out.write fname header_comment)
      then ((fname, "") ∷ [], some (not_written fname))
      else if not (out.write fname text)
      then ((fname, header_comment) ∷ [], some (not_written fname))
      else ((fname, concat header_comment text) ∷ rest.0, rest.1)

  -- The body from the rules on.
  unfoldable pub generate_domain : String → Domain F → Written F → Written F
  generate_domain name d rest = elim (out.marshal (groups_of name d)) [
    | none ↦ ([], some (not_marshalled name))
    | some text ↦ write_domain (file_name name) text rest
  ]

  -- The loop over the domains of the configuration.
  unfoldable pub generate : Dict (Domain F) → Written F
  generate [] = ([], none)
  generate ((name, d) ∷ conf) =
      let rest = generate conf in
      elim (domain_is_valid fl of_1h of_6h of_1d d) [
        | [] ↦ generate_domain name d rest
        | e ∷ errs ↦ ([], some (domain_invalid name (e ∷ errs)))
      ]

  -- main, of the arguments of the program
  unfoldable pub generator_main : List String → Written F
  generator_main (program ∷ conf_filename ∷ []) = elim (out.read_file conf_filename) [
    | none ↦ ([], some configuration_unread)
    | some text ↦ elim (out.unmarshal text) [
      | none ↦ ([], some configuration_unparsed)
      | some conf ↦ generate conf
    ]
  ]
  generator_main [] = ([], some wrong_usage)
  generator_main (program ∷ []) = ([], some wrong_usage)
  generator_main (program ∷ conf_filename ∷ third ∷ others) = ([], some wrong_usage)
