-- ===== src/RulesGenerator/Generate/Returns.antt =====
-- When main of tools/slo-rules-generator returns.
use slo_exporter.Prelude.{
  String, ℤ, Option, ◌≡◌, refl, some, none, List, [], ◌∷◌, arith, Option-cases, inl, inr, ◌↔◌,
}
use slo_exporter.Prelude.Dict.{Dict}
use slo_exporter.Runtime.{Float64}
use slo_exporter.RulesGenerator.Conditions.{Domain}
use slo_exporter.RulesGenerator.Generate.{
  Outside, generate, GeneratorExit, wrong_usage, configuration_unread, configuration_unparsed,
  domain_invalid, not_marshalled, not_created, not_written, generator_code, generator_main,
}

module _ (fl : Float64) (of_1h of_6h of_1d : fl.F) (print_int : ℤ → String)
    (out : Outside fl.F) where
  open fl use {F}

  generator_code-none : (x : Option (GeneratorExit F)) → generator_code x ≡ 0 → x ≡ none
  generator_code-none none e = refl
  generator_code-none (some wrong_usage) e = absurd (omega (arith, e))
  generator_code-none (some configuration_unread) e = absurd (omega (arith, e))
  generator_code-none (some configuration_unparsed) e = absurd (omega (arith, e))
  generator_code-none (some (domain_invalid name errs)) e = absurd (omega (arith, e))
  generator_code-none (some (not_marshalled name)) e = absurd (omega (arith, e))
  generator_code-none (some (not_created name)) e = absurd (omega (arith, e))
  generator_code-none (some (not_written name)) e = absurd (omega (arith, e))

  -- What a run of main with the code 0 has done.
  record Generated (args : List String) : Type 0 where
    program : String
    conf_filename : String
    text : String
    conf : Dict (Domain F)
    given : args ≡ program ∷ conf_filename ∷ []
    was_read : out.read_file conf_filename ≡ some text
    was_parsed : out.unmarshal text ≡ some conf
    returned : (generate fl of_1h of_6h of_1d print_int out conf).1 ≡ none

  -- main ends with the code 0 exactly when it has one argument, the file of that name can be read and
  -- parsed, and the loop over its domains returns.
  generator_main_iff :
      (args : List String)
      → (generator_code (generator_main fl of_1h of_6h of_1d print_int out args).1 ≡ 0)
        ↔ Generated args
  unfolding generator_main
  generator_main_iff [] = ((λ e. absurd (ground arith)), (λ h. absurd (ground (arith, h.given))))
  generator_main_iff (program ∷ []) =
      ((λ e. absurd (ground arith)), (λ h. absurd (ground (arith, h.given))))
  generator_main_iff (program ∷ conf_filename ∷ third ∷ others) =
      ((λ e. absurd (ground arith)), (λ h. absurd (ground (arith, h.given))))
  generator_main_iff (program ∷ conf_filename ∷ []) = (
    (λ e. elim (Option-cases (out.read_file conf_filename)) [
      | inl unread ↦ absurd (ground arith)
      | inr (text, was_read) ↦ elim (Option-cases (out.unmarshal text)) [
        | inl unparsed ↦ absurd (ground arith)
        | inr (conf, was_parsed) ↦ record {
          program = program;
          conf_filename = conf_filename;
          text = text;
          conf = conf;
          given = refl;
          was_read = was_read;
          was_parsed = was_parsed;
          returned =
              generator_code-none (generate fl of_1h of_6h of_1d print_int out conf).1
                (ground arith);
        }
      ]
    ]),
    (λ h. ground (arith, h.given, h.was_read, h.was_parsed, h.returned)),
  )
