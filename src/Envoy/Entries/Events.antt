-- ===== src/Envoy/Entries/Events.antt =====
-- The entries that pkg/envoy_access_log_server/service_v3.go takes, and the events of them.
use slo_exporter.Prelude.{
  ℕ, ◌+◌, ◌≡◌, refl, String, true, Option, none, some, List, [], ◌∷◌, ℤ, length, All, is_some,
  arith, ◌↔◌, Option-cases, inl, inr,
}
use slo_exporter.Event.{Raw}
use slo_exporter.Envoy.Common.{CommonProperties, Counters, Building}
use slo_exporter.Envoy.Common.Errors.{field_errors, unusable_fields, common-Adds}
use slo_exporter.Envoy.Entries.{HttpEntry, http_string_map, emit_http}

abbrev pub unusable_of : Option CommonProperties → ℕ
unusable_of none = 0
unusable_of (some p) = unusable_fields p

abbrev pub unusable_in : List HttpEntry → ℕ
unusable_in [] = 0
unusable_in (l ∷ logs) = unusable_of l.common + unusable_in logs

-- An entry without a nil pointer that StringMap follows.
abbrev pub IsComplete : HttpEntry → Type 0
IsComplete l = (is_some l.common ≡ true) × (is_some l.request ≡ true) × (is_some l.response ≡ true)

module _ (print : ℕ → String) (print_int : ℤ → String) where
  -- StringMap of a complete entry does not panic.
  http-IsComplete :
      (l : HttpEntry) (c : Counters)
      → IsComplete l
      → (b : Building) × (http_string_map print print_int l c ≡ some b)
        × (field_errors b.counters ≡ field_errors c + unusable_of l.common)
        × (b.counters.http_entries ≡ c.http_entries)
  unfolding http_string_map
  http-IsComplete l c h = elim (Option-cases l.common) [
    | inl no_common ↦ absurd (ground arith)
    | inr (p, common) ↦ elim (Option-cases l.request) [
      | inl no_request ↦ absurd (ground arith)
      | inr (request, requested) ↦ elim (Option-cases l.response) [
        | inl no_response ↦ absurd (ground arith)
        | inr (response, responded) ↦
            let added = common-Adds print print_int p c in
            rw (common, requested, responded) (_, refl, added.errors, added.entries)
      ]
    ]
  ]

  IsComplete-http :
      (l : HttpEntry) (c : Counters)
      → is_some (http_string_map print print_int l c) ≡ true
      → IsComplete l
  unfolding http_string_map
  IsComplete-http l c e = ground arith

  module _ {F : Type 0} (one : F) where
    emit_http-IsComplete :
        (logs : List HttpEntry) (c : Counters)
        → All IsComplete logs
        → (events : List (Raw F)) × (c' : Counters) × (emit_http print print_int one logs c
            ≡ some (events, c'))
          × (length events ≡ length logs)
          × (c'.http_entries ≡ c.http_entries + length logs)
          × (field_errors c' ≡ field_errors c + unusable_in logs)
    unfolding emit_http
    emit_http-IsComplete [] c h = ([], c, refl, refl, omega arith, omega arith)
    emit_http-IsComplete (l ∷ logs) c h =
        let counted : Counters = record c { http_entries = c.http_entries + 1 } in
        let now = http-IsComplete l counted h.0 in
        let later = emit_http-IsComplete logs now.0.counters h.1 in
        rw (now.1, emit_http)
          (rw (later.2, emit_http)
            (
              _,
              later.1,
              refl,
              omega (arith, later.3),
              omega (arith, later.4, now.3),
              omega (arith, later.5, now.2),
            ))

    IsComplete-emit_http :
        (logs : List HttpEntry) (c : Counters)
        → is_some (emit_http print print_int one logs c) ≡ true
        → All IsComplete logs
    unfolding emit_http
    IsComplete-emit_http [] c e = tt
    IsComplete-emit_http (l ∷ logs) c e =
        let counted : Counters = record c { http_entries = c.http_entries + 1 } in
        elim (Option-cases (http_string_map print print_int l counted)) [
          | inl panics ↦ absurd (ground arith)
          | inr (b, made) ↦ elim (Option-cases (emit_http print print_int one logs b.counters)) [
            | inl later ↦ absurd (ground arith)
            | inr (sent, later) ↦ (
              IsComplete-http l counted (rw made refl),
              IsComplete-emit_http logs b.counters (rw later refl),
            )
          ]
        ]

    -- A message of HTTP logs is taken without a panic exactly when no entry lacks its common
    -- properties, its request or its response. Then each entry gives one event and is counted
    -- once, and the errors grow by the number of addresses, times and durations that are there and
    -- cannot be used.
    pub emit_http_iff :
        (logs : List HttpEntry) (c : Counters)
        → (is_some (emit_http print print_int one logs c) ≡ true ↔ All IsComplete logs)
          × (All IsComplete logs
              → (events : List (Raw F)) × (c' : Counters) × (emit_http print print_int one logs c
                  ≡ some (events, c'))
                × (length events ≡ length logs)
                × (c'.http_entries ≡ c.http_entries + length logs)
                × (field_errors c' ≡ field_errors c + unusable_in logs))
    emit_http_iff logs c = (
      (
        IsComplete-emit_http logs c,
        λ h. let made = emit_http-IsComplete logs c h in rw (made.2) refl,
      ),
      emit_http-IsComplete logs c,
    )
