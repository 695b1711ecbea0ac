-- ===== src/Tailer/Laws.antt =====
-- What the tailer of pkg/tailer/tailer.go sends, counts and marks.
use slo_exporter.Prelude.{
  ℕ, suc, ◌≡◌, ◌≢◌, ◌∙◌, refl, String, true, false, not, ◌&&◌, ◌||◌, ◌==◌, eq_iff, Option, none,
  some, List, [], ◌∷◌, drop, length, nat_eq, or_else, arith, if◌then◌else◌,
}
use slo_exporter.Prelude.Dict.{lookup, insert, IsMap, lookup-insert, insert-IsMap}
use slo_exporter.StringMap.{StringMap}
use slo_exporter.Runtime.{Float64, TextLibrary}
use slo_exporter.Prelude.Results.{ok, err}
use slo_exporter.Tailer.{unable_to_parse_line, parse_groups, parse_line}

module _ (fl : Float64) (lib : TextLibrary) where
  open fl use {F}
  open lib use {Regexp}

  -- The value of the last group of a name that is not taken for empty.
  abbrev pub last_group : Regexp → String → List String → List String → Option String
  last_group empty_re key (name ∷ names) (value ∷ match) =
      or_else (last_group empty_re key names match) (
        if (name == key) && not (name == "") && not (lib.match_string empty_re value)
        then some value
        else none)
  last_group empty_re key [] match = none
  last_group empty_re key (name ∷ names) [] = none

  -- The loop behind the group 0 reads the groups in their order.
  lookup-parse_groups :
      (empty_re : Regexp) (i : ℕ) (names match : List String) (line_data : StringMap)
      → length match ≡ length names
      → IsMap line_data
      → (filled : StringMap) × (parse_groups fl lib empty_re (suc i) names match line_data
          ≡ ok filled)
        × IsMap filled
        × ((key : String)
            → lookup key filled
              ≡ or_else (last_group empty_re key names match) (lookup key line_data))
  unfolding parse_groups
  lookup-parse_groups empty_re i [] match line_data same h = (line_data, refl, h, λ key. refl)
  lookup-parse_groups empty_re i (name ∷ names) [] line_data same h = absurd (omega arith)
  lookup-parse_groups empty_re i (name ∷ names) (value ∷ match) line_data same h =
      let kept : StringMap =
        if (name == "") || lib.match_string empty_re value
        then line_data
        else insert name value line_data in
      let is_map : IsMap kept = ground (arith, insert-IsMap name value line_data h) in
      let step = lookup-parse_groups empty_re (suc i) names match kept (omega arith) is_map in
      (
        step.0,
        step.1,
        step.2,
        λ key. step.3 key ∙ ground (arith, lookup-insert name key value line_data, eq_iff name key),
      )

  or_none : {A : Type 0} (o : Option A) → or_else o none ≡ o
  or_none none = refl
  or_none (some a) = refl

  lookup-parse_all :
      (empty_re : Regexp) (names match : List String)
      → length match ≡ length names
      → (filled : StringMap) × (parse_groups fl lib empty_re 0 names match [] ≡ ok filled)
        × IsMap filled
        × ((key : String)
            → lookup key filled ≡ last_group empty_re key (drop 1 names) (drop 1 match))
  unfolding parse_groups lookup
  lookup-parse_all empty_re [] [] same = ([], refl, tt, λ key. refl)
  lookup-parse_all empty_re [] (value ∷ match) same = absurd (omega arith)
  lookup-parse_all empty_re (name ∷ names) [] same = absurd (omega arith)
  lookup-parse_all empty_re (name ∷ names) (value ∷ match) same =
      let step = lookup-parse_groups empty_re 0 names match [] (omega arith) tt in
      (step.0, step.1, step.2, λ key. step.3 key ∙ or_none _)

  module _ (find_string_submatch : Regexp → String → List String)
      (subexp_names : Regexp → List String) where
    -- A line that the expression splits into as many groups as it has is always parsed, without an
    -- index out of range: each key has the text of the last group with that name, not counting the
    -- whole match, the groups without a name and those whose text the expression for empty groups
    -- matches. Any other line is an error.
    pub lookup-parse_line :
        (parse_re empty_re : Regexp) (text : String)
        → let match = find_string_submatch parse_re text in
          let names = subexp_names parse_re in
          let parsed = parse_line fl lib find_string_submatch subexp_names parse_re empty_re text in
          (length match ≡ length names
            → (line_data : StringMap) × (parsed ≡ ok line_data)
              × IsMap line_data
              × ((key : String)
                  → lookup key line_data ≡ last_group empty_re key (drop 1 names) (drop 1 match)))
          × (length match ≢ length names → parsed ≡ err unable_to_parse_line)
    unfolding parse_line
    lookup-parse_line parse_re empty_re text =
        let match = find_string_submatch parse_re text in
        let names = subexp_names parse_re in
        (
          λ same.
              let counted : nat_eq (length match) (length names) ≡ true = ground arith in
              rw counted (lookup-parse_all empty_re names match same),
          λ other.
              let counted : nat_eq (length match) (length names) ≡ false = ground arith in
              rw counted refl,
        )
