-- ===== src/RulesGenerator/Generate/Laws.antt =====
-- The files that main of tools/slo-rules-generator leaves behind.
use slo_exporter.Prelude.{
  String, ℤ, ◌≡◌, refl, ap, true, some, none, List, [], ◌∷◌, ◌++◌, map, arith, Option-cases,
  Bool-cases, inl, inr, ◌⊎◌, ◌↔◌, ◌∙◌, All, concat,
}
use slo_exporter.Prelude.Dict.{Dict, IsMap}
use slo_exporter.Runtime.{Float64}
use slo_exporter.RulesGenerator.Conditions.{Domain}
use slo_exporter.RulesGenerator.Validation.{DomainError, domain_is_valid}
use slo_exporter.RulesGenerator.Validation.Laws.{IsDomain, domain_is_valid_iff}
use slo_exporter.RulesGenerator.Generate.{
  Outside, Written, file_name, groups_of, header_comment, write_domain, generate_domain, generate,
  domain_invalid,
}

errors-cases :
    {A : Type 0} (xs : List A) → (xs ≡ []) ⊎ ((x : A) × (rest : List A) × (xs ≡ x ∷ rest))
errors-cases [] = inl refl
errors-cases (x ∷ xs) = inr (x, xs, refl)

module _ (fl : Float64) (of_1h of_6h of_1d : fl.F) (print_int : ℤ → String)
    (out : Outside fl.F) where
  open fl use {F}

  abbrev pub text_of : String × Domain F → String
  text_of (name, d) = elim (out.marshal (groups_of fl of_1h of_6h of_1d print_int out name d)) [
    | none ↦ ""
    | some text ↦ text
  ]

  -- The rules of a domain can be marshalled and written.
  abbrev pub IsWritable : String × Domain F → Type 0
  IsWritable (name, d) =
      (out.marshal (groups_of fl of_1h of_6h of_1d print_int out name d) ≡ some (text_of (name, d)))
      × (out.create (file_name name) ≡ true)
      × (out.write (file_name name) header_comment ≡ true)
      × (out.write (file_name name) (text_of (name, d)) ≡ true)

  abbrev pub file_of : String × Domain F → String × String
  file_of (name, d) = (file_name name, concat header_comment (text_of (name, d)))

  -- The files begun are those of the first domains, and each of these is valid.
  abbrev pub IsBegun : Dict (Domain F) → Written F → Type 0
  IsBegun conf w =
      (before : Dict (Domain F)) × (after : Dict (Domain F)) × (conf ≡ before ++ after)
      × (map (λ (f : String × String). f.0) w.0
          ≡ map (λ (p : String × Domain F). file_name p.0) before)
      × All (λ (p : String × Domain F). IsDomain fl of_1h of_6h of_1d p.1) before

  generate_domain-ok :
      (name : String) (d : Domain F) (rest : Written F)
      → ((generate_domain fl of_1h of_6h of_1d print_int out name d rest).1 ≡ none)
        ↔ (IsWritable (name, d) × (rest.1 ≡ none))
  unfolding generate_domain write_domain
  generate_domain-ok name d rest = ((λ e. ground arith), (λ h. ground arith))

  generate_domain-files :
      (name : String) (d : Domain F) (rest : Written F)
      → IsWritable (name, d)
      → (generate_domain fl of_1h of_6h of_1d print_int out name d rest).0
        ≡ file_of (name, d) ∷ rest.0
  unfolding generate_domain write_domain
  generate_domain-files name d rest h = ground arith

  -- The file of the domain is begun with or without those of the later ones, or not at all.
  generate_domain-names :
      (name : String) (d : Domain F) (rest : Written F)
      → let names =
          map
            (λ (f : String × String). f.0)
            (generate_domain fl of_1h of_6h of_1d print_int out name d rest).0 in
        ((names ≡ []) ⊎ (names ≡ file_name name ∷ []))
        ⊎ (names ≡ file_name name ∷ map (λ (f : String × String). f.0) rest.0)
  unfolding generate_domain write_domain
  generate_domain-names name d rest =
      let groups = groups_of fl of_1h of_6h of_1d print_int out name d in
      elim (Option-cases (out.marshal groups)) [
        | inl failed ↦ inl (inl (ground arith))
        | inr (text, marshalled) ↦ elim (Bool-cases (out.create (file_name name))) [
          | inr failed ↦ inl (inl (ground arith))
          | inl created ↦ elim (Bool-cases (out.write (file_name name) header_comment)) [
            | inr failed ↦ inl (inr (ground arith))
            | inl begun ↦ elim (Bool-cases (out.write (file_name name) text)) [
              | inr failed ↦ inl (inr (ground arith))
              | inl written ↦ inr (ground arith)
            ]
          ]
        ]
      ]

  generate_domain-IsBegun :
      (name : String) (d : Domain F) (conf : Dict (Domain F)) (rest : Written F)
      → IsDomain fl of_1h of_6h of_1d d
      → IsBegun conf rest
      → IsBegun ((name, d) ∷ conf) (generate_domain fl of_1h of_6h of_1d print_int out name d rest)
  generate_domain-IsBegun name d conf rest valid (before, after, parts, names, all) =
      elim (generate_domain-names name d rest) [
        | inl (inl none_begun) ↦ ([], (name, d) ∷ conf, refl, none_begun, tt)
        | inl (inr one_begun) ↦ ((name, d) ∷ [], conf, refl, one_begun, (valid, tt))
        | inr begun ↦ (
          (name, d) ∷ before,
          after,
          ap (◌∷◌ (name, d)) parts,
          begun ∙ ap (◌∷◌ (file_name name)) names,
          (valid, all),
        )
      ]

  generate_valid :
      (name : String) (d : Domain F) (conf : Dict (Domain F))
      → domain_is_valid fl of_1h of_6h of_1d d ≡ []
      → generate fl of_1h of_6h of_1d print_int out ((name, d) ∷ conf)
        ≡ generate_domain fl of_1h of_6h of_1d print_int out name d
            (generate fl of_1h of_6h of_1d print_int out conf)
  unfolding generate
  generate_valid name d conf fine = ground (arith, fine)

  generate_invalid :
      (name : String) (d : Domain F) (conf : Dict (Domain F)) (x : DomainError F)
      (errs : List (DomainError F))
      → domain_is_valid fl of_1h of_6h of_1d d ≡ x ∷ errs
      → generate fl of_1h of_6h of_1d print_int out ((name, d) ∷ conf)
        ≡ ([], some (domain_invalid name (x ∷ errs)))
  unfolding generate
  generate_invalid name d conf x errs found = ground (arith, found)

  -- Where the classes of each domain have each name once: the generator returns without an exit
  -- exactly when each domain is valid, and its rules can be marshalled and written to its file; it
  -- has then written one file for each domain, with the header and the rules of that domain, in the
  -- order in which the domains are visited. However it ends, the files that it has begun are those
  -- of the first domains that it visited, and each of these domains is valid. A domain is valid where
  -- no threshold is at most 0, each has one of the default time ranges, the value of no type is below
  -- 0 or above 1, and the class and the type that a condition names are defined.
  pub generate_iff :
      (conf : Dict (Domain F))
      → All (λ (p : String × Domain F). IsMap p.1.classes) conf
      → let w = generate fl of_1h of_6h of_1d print_int out conf in
        ((w.1 ≡ none)
          ↔ All (λ (p : String × Domain F). IsDomain fl of_1h of_6h of_1d p.1 × IsWritable p) conf)
        × (w.1 ≡ none → w.0 ≡ map file_of conf)
        × IsBegun conf w
  unfolding generate
  generate_iff [] distinct = (((λ e. tt), (λ h. refl)), (λ e. refl), ([], [], refl, refl, tt))
  generate_iff ((name, d) ∷ conf) distinct =
      let rest = generate fl of_1h of_6h of_1d print_int out conf in
      let (done, files, begun) = generate_iff conf distinct.1 in
      let valid_iff = domain_is_valid_iff fl of_1h of_6h of_1d d distinct.0 in
      let ok_iff = generate_domain-ok name d rest in
      elim (errors-cases (domain_is_valid fl of_1h of_6h of_1d d)) [
        | inl fine ↦ rw (generate_valid name d conf fine) (
          (
            (λ e. ((valid_iff.0 fine, (ok_iff.0 e).0), done.0 (ok_iff.0 e).1)),
            (λ h. ok_iff.1 (h.0.1, done.1 h.1)),
          ),
          (λ e.
              generate_domain-files name d rest (ok_iff.0 e).0
              ∙ ap (◌∷◌ (file_of (name, d))) (files (ok_iff.0 e).1)),
          generate_domain-IsBegun name d conf rest (valid_iff.0 fine) begun,
        )
        | inr (x, errs, found) ↦ rw (generate_invalid name d conf x errs found) (
          ((λ e. absurd (ground arith)), (λ h. absurd (ground (arith, valid_iff.1 h.0.0)))),
          (λ e. absurd (ground arith)),
          ([], (name, d) ∷ conf, refl, refl, tt),
        )
      ]
