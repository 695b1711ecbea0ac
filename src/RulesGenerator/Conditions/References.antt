-- ===== src/RulesGenerator/Conditions/References.antt =====
-- The references of conditions in tools/slo-rules-generator/domain.go.
use slo_exporter.Prelude.{
  String, ◌≡◌, refl, true, false, ◌==◌, eq_iff, some, List, [], ◌∷◌, ◌++◌, arith, Bool-cases,
  Option-cases, inl, inr, ◌↔◌, All, is_some,
}
use slo_exporter.Prelude.Dict.{Dict, lookup, IsMap}
use slo_exporter.RulesGenerator.Conditions.{
  Condition, BurnRateThreshold, Class, condition_matches, type_found, class_errors, type_errors,
  validate_references,
}

pub append_empty : {A : Type 0} (xs ys : List A) → (xs ++ ys ≡ []) ↔ ((xs ≡ []) × (ys ≡ []))
append_empty [] ys = ((λ e. (refl, e)), λ h. h.1)
append_empty (x ∷ xs) ys = ((λ e. absurd (ground arith)), λ h. absurd (ground (arith, h.0)))

module _ {F : Type 0} where
  -- A class with a type that the condition matches.
  pub record Applies (classes : Dict (Class F)) (c : Condition) : Type 0 where
    pub class_name : String
    pub class : Class F
    pub slo_type : String
    pub defined : lookup class_name classes ≡ some class
    pub has_type : is_some (lookup slo_type class) ≡ true
    pub matching : condition_matches c class_name slo_type ≡ true

  type_found-lookup :
      (slo_type : String) (classes : Dict (Class F))
      → IsMap classes
      → type_found slo_type classes ≡ true
      → (name : String) × (class : Class F) × (lookup name classes ≡ some class)
        × (is_some (lookup slo_type class) ≡ true)
  unfolding type_found lookup
  type_found-lookup slo_type [] d e = absurd (ground arith)
  type_found-lookup slo_type ((name, class) ∷ classes) d e =
      elim (Bool-cases (is_some (lookup slo_type class))) [
        | inl has ↦ (name, class, ground (arith, eq_iff name name), has)
        | inr lacks ↦
            let later = type_found-lookup slo_type classes d.1 (ground arith) in
            (later.0, later.1, ground (arith, eq_iff name later.0, later.2, d.0), later.3)
      ]

  lookup-type_found :
      (slo_type name : String) (class : Class F) (classes : Dict (Class F))
      → lookup name classes ≡ some class
      → is_some (lookup slo_type class) ≡ true
      → type_found slo_type classes ≡ true
  unfolding type_found lookup
  lookup-type_found slo_type name class [] e has = absurd (ground arith)
  lookup-type_found slo_type name class ((other, c) ∷ classes) e has =
      ground (arith, lookup-type_found slo_type name class classes)

  -- What a condition has to refer to.
  abbrev pub IsReferenced : Dict (Class F) → Condition → Type 0
  IsReferenced classes c =
      ((c.class == "") ≡ false → is_some (lookup c.class classes) ≡ true)
      × ((c.slo_type == "") ≡ false → Applies classes c)

  class_errors_iff :
      (classes : Dict (Class F)) (class : String)
      → (class_errors classes class ≡ [])
        ↔ ((class == "") ≡ false → is_some (lookup class classes) ≡ true)
  unfolding class_errors
  class_errors_iff classes class = (λ e. λ n. ground arith, λ h. ground (arith, h))

  type_errors-Applies :
      (classes : Dict (Class F)) (c : Condition)
      → IsMap classes
      → type_errors classes c.class c.slo_type ≡ []
      → (c.slo_type == "") ≡ false
      → Applies classes c
  unfolding type_errors condition_matches lookup
  type_errors-Applies classes c d e typed = elim (Bool-cases (c.class == "")) [
    | inl any ↦
        let found = type_found-lookup c.slo_type classes d (ground arith) in
        record {
          class_name = found.0;
          class = found.1;
          slo_type = c.slo_type;
          defined = found.2;
          has_type = found.3;
          matching = ground (arith, eq_iff c.slo_type c.slo_type);
        }
    | inr named ↦ elim (Option-cases (lookup c.class classes)) [
      | inl missing ↦ absurd (ground arith)
      | inr (class, defined) ↦ record {
        class_name = c.class;
        class = class;
        slo_type = c.slo_type;
        defined = defined;
        has_type = ground arith;
        matching = ground (arith, eq_iff c.slo_type c.slo_type, eq_iff c.class c.class);
      }
    ]
  ]

  Applies-type_errors :
      (classes : Dict (Class F)) (c : Condition)
      → ((c.slo_type == "") ≡ false → Applies classes c)
      → type_errors classes c.class c.slo_type ≡ []
  unfolding type_errors condition_matches
  Applies-type_errors classes c h = elim (Bool-cases (c.slo_type == "")) [
    | inl any ↦ rw any refl
    | inr typed ↦
        let a = h typed in
        ground (
          arith,
          a.matching,
          a.defined,
          a.has_type,
          eq_iff c.class a.class_name,
          eq_iff c.slo_type a.slo_type,
          lookup-type_found c.slo_type a.class_name a.class classes,
        )
  ]

  -- Where the classes of a domain have each name once: validateReferences finds no error exactly
  -- when each condition that names a class names a defined one, and for each condition that
  -- names a type there is a class with that type that the condition matches, so that its
  -- threshold is used.
  pub validate_references_iff :
      (classes : Dict (Class F)) (thresholds : List (BurnRateThreshold F))
      → IsMap classes
      → (validate_references classes thresholds ≡ [])
        ↔ All (λ t. IsReferenced classes t.condition) thresholds
  unfolding validate_references
  validate_references_iff classes [] d = (λ e. tt, λ h. refl)
  validate_references_iff classes (t ∷ thresholds) d =
      let c = t.condition in
      let later = validate_references_iff classes thresholds d in
      let first = class_errors_iff classes c.class in
      let split =
        append_empty (class_errors classes c.class)
          (type_errors classes c.class c.slo_type ++ validate_references classes thresholds) in
      let split_types =
        append_empty (type_errors classes c.class c.slo_type)
          (validate_references classes thresholds) in
      (
        λ e.
            let parts = split.0 e in
            let types = split_types.0 parts.1 in
            ((first.0 parts.0, type_errors-Applies classes c d types.0), later.0 types.1),
        λ h.
            split.1
              (first.1 h.0.0, split_types.1 (Applies-type_errors classes c h.0.1, later.1 h.1)),
      )
