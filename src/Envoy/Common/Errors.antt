-- ===== src/Envoy/Common/Errors.antt =====
-- What StringMap of the common properties in pkg/envoy_access_log_server/service_v3.go counts.
use slo_exporter.Prelude.{ℕ, ◌+◌, ◌≡◌, refl, ◌∙◌, String, Option, none, some, [], ℤ, arith}
use slo_exporter.Envoy.Common.{
  Address, Duration, Time, CommonProperties, Counters, Building, set_label, set_address,
  set_duration, set_time, downstream_addresses, upstream_addresses, first_durations, last_durations,
  common_string_map,
}

-- The errors in the fields of entries.
abbrev pub field_errors : Counters → ℕ
field_errors c = c.address_format_unsupported + c.invalid_timestamp + c.invalid_duration

-- A field that is there and cannot be used.
abbrev pub unusable : {A : Type 0} → Option (Option A) → ℕ
unusable none = 0
unusable (some none) = 1
unusable (some (some a)) = 0

-- The fields of an entry that are there and cannot be used.
abbrev pub unusable_fields : CommonProperties → ℕ
unusable_fields p =
    unusable p.downstream_direct_remote_address
    + unusable p.downstream_remote_address
    + unusable p.downstream_local_address
    + unusable p.start_time
    + unusable p.time_to_first_downstream_tx_byte
    + unusable p.time_to_first_upstream_rx_byte
    + unusable p.time_to_first_upstream_tx_byte
    + unusable p.time_to_last_downstream_tx_byte
    + unusable p.time_to_last_rx_byte
    + unusable p.time_to_last_upstream_rx_byte
    + unusable p.time_to_last_upstream_tx_byte
    + unusable p.upstream_local_address
    + unusable p.upstream_remote_address

-- What a part of StringMap adds to the errors; it counts no entry.
pub record Adds (n : ℕ) (before after : Building) : Type 0 where
  pub errors : field_errors after.counters ≡ field_errors before.counters + n
  pub entries : after.counters.http_entries ≡ before.counters.http_entries

module _ (print : ℕ → String) (print_int : ℤ → String) where
  set_address-Adds :
      (name port : String) (a : Address) (b : Building)
      → Adds (unusable a) b (set_address print print_int name port a b)
  unfolding set_address
  set_address-Adds name port none b = record { errors = omega arith; entries = refl }
  set_address-Adds name port (some none) b = record { errors = omega arith; entries = refl }
  set_address-Adds name port (some (some sa)) b = record { errors = omega arith; entries = refl }

  set_duration-Adds :
      (name : String) (d : Duration) (b : Building)
      → Adds (unusable d) b (set_duration print print_int name d b)
  unfolding set_duration
  set_duration-Adds name none b = record { errors = omega arith; entries = refl }
  set_duration-Adds name (some none) b = record { errors = omega arith; entries = refl }
  set_duration-Adds name (some (some n)) b = record { errors = omega arith; entries = refl }

  set_time-Adds :
      (name : String) (t : Time) (b : Building)
      → Adds (unusable t) b (set_time print print_int name t b)
  unfolding set_time
  set_time-Adds name none b = record { errors = omega arith; entries = refl }
  set_time-Adds name (some none) b = record { errors = omega arith; entries = refl }
  set_time-Adds name (some (some text)) b = record { errors = omega arith; entries = refl }

  Adds-trans : {n m : ℕ} {a b c : Building} → Adds n a b → Adds m b c → Adds (n + m) a c
  Adds-trans first second = record {
    errors = omega (arith, first.errors, second.errors);
    entries = second.entries ∙ first.entries;
  }

  downstream-Adds :
      (p : CommonProperties) (b : Building)
      → Adds
          (unusable p.downstream_direct_remote_address
            + unusable p.downstream_remote_address
            + unusable p.downstream_local_address)
          b
          (downstream_addresses print print_int p b)
  unfolding downstream_addresses
  downstream-Adds p b =
      Adds-trans
        (Adds-trans (set_address-Adds _ _ p.downstream_direct_remote_address b)
          (set_address-Adds _ _ p.downstream_remote_address _))
        (set_address-Adds _ _ p.downstream_local_address _)

  upstream-Adds :
      (p : CommonProperties) (b : Building)
      → Adds
          (unusable p.upstream_local_address + unusable p.upstream_remote_address)
          b
          (upstream_addresses print print_int p b)
  unfolding upstream_addresses
  upstream-Adds p b =
      Adds-trans (set_address-Adds _ _ p.upstream_local_address b)
        (set_address-Adds _ _ p.upstream_remote_address _)

  first-Adds :
      (p : CommonProperties) (b : Building)
      → Adds
          (unusable p.time_to_first_downstream_tx_byte
            + unusable p.time_to_first_upstream_rx_byte
            + unusable p.time_to_first_upstream_tx_byte)
          b
          (first_durations print print_int p b)
  unfolding first_durations
  first-Adds p b =
      Adds-trans
        (Adds-trans (set_duration-Adds _ p.time_to_first_downstream_tx_byte b)
          (set_duration-Adds _ p.time_to_first_upstream_rx_byte _))
        (set_duration-Adds _ p.time_to_first_upstream_tx_byte _)

  last-Adds :
      (p : CommonProperties) (b : Building)
      → Adds
          (unusable p.time_to_last_downstream_tx_byte
            + unusable p.time_to_last_rx_byte
            + unusable p.time_to_last_upstream_rx_byte
            + unusable p.time_to_last_upstream_tx_byte)
          b
          (last_durations print print_int p b)
  unfolding last_durations
  last-Adds p b =
      Adds-trans
        (Adds-trans
          (Adds-trans (set_duration-Adds _ p.time_to_last_downstream_tx_byte b)
            (set_duration-Adds _ p.time_to_last_rx_byte _))
          (set_duration-Adds _ p.time_to_last_upstream_rx_byte _))
        (set_duration-Adds _ p.time_to_last_upstream_tx_byte _)

  pub common-Adds :
      (p : CommonProperties) (c : Counters)
      → Adds
          (unusable_fields p)
          (record { labels = []; counters = c })
          (common_string_map print print_int p c)
  unfolding common_string_map
  common-Adds p c =
      let start : Building = record { labels = []; counters = c } in
      let routed =
        set_label "routeName" p.route_name (downstream_addresses print print_int p start) in
      let timed = set_time print print_int "startTime" p.start_time routed in
      let firsts = first_durations print print_int p timed in
      let lasts = last_durations print print_int p firsts in
      let clustered = set_label "upstreamCluster" p.upstream_cluster lasts in
      let a = downstream-Adds p start in
      let b = set_time-Adds "startTime" p.start_time routed in
      let d = first-Adds p timed in
      let e = last-Adds p firsts in
      let f = upstream-Adds p clustered in
      record {
        errors = omega (arith, a.errors, b.errors, d.errors, e.errors, f.errors);
        entries = f.entries ∙ e.entries ∙ d.entries ∙ b.entries ∙ a.entries;
      }
