-- ===== src/Envoy/Common.antt =====
-- The common properties of log entries in pkg/envoy_access_log_server: the first part of service_v3.go,
-- and util.go. A message of the generated types is a record of the fields that the code reads. A
-- pointer is an option. The time in RFC 3339 and the printing of numbers are parameters.
pub mod Errors
use slo_exporter.Prelude.{ℕ, ◌+◌, String, Option, none, some, List, [], ◌∷◌, ℤ, concat}
use slo_exporter.Prelude.Dict.{insert}
use slo_exporter.StringMap.{StringMap}

pub record SocketAddress : Type 0 where
  pub address : String
  pub port_value : ℕ

-- A nil address is `none`, and one that is no socket address `some none`.
abbrev pub Address : Type 0
Address = Option (Option SocketAddress)

-- A nil duration is `none`, and one that ptypes.Duration refuses `some none`; else nanoseconds.
abbrev pub Duration : Type 0
Duration = Option (Option ℤ)

-- A nil time is `none`, and one that ptypes.Timestamp refuses `some none`; else RFC 3339.
abbrev pub Time : Type 0
Time = Option (Option String)

-- AccessLogCommon, with the sample rate as strconv.FormatFloat prints it.
pub record CommonProperties : Type 0 where
  pub downstream_direct_remote_address : Address
  pub downstream_remote_address : Address
  pub downstream_local_address : Address
  pub route_name : String
  pub start_time : Time
  pub time_to_first_downstream_tx_byte : Duration
  pub time_to_first_upstream_rx_byte : Duration
  pub time_to_first_upstream_tx_byte : Duration
  pub time_to_last_downstream_tx_byte : Duration
  pub time_to_last_rx_byte : Duration
  pub time_to_last_upstream_rx_byte : Duration
  pub time_to_last_upstream_tx_byte : Duration
  pub upstream_cluster : String
  pub upstream_local_address : Address
  pub upstream_remote_address : Address
  pub upstream_transport_failure_reason : String
  pub sample_rate : String

-- errorsTotal by its type, and logEntriesTotal by the protocol
pub record Counters : Type 0 where
  pub address_format_unsupported : ℕ
  pub invalid_timestamp : ℕ
  pub invalid_duration : ℕ
  pub unknown_log_type : ℕ
  pub processing_stream : ℕ
  pub http_entries : ℕ
  pub tcp_entries : ℕ

-- What StringMap of the common properties has made so far.
pub record Building : Type 0 where
  pub labels : StringMap
  pub counters : Counters

abbrev pub set_label : String → String → Building → Building
set_label key value b = record b { labels = insert key value b.labels }

module _ (print : ℕ → String) (print_int : ℤ → String) where
  -- The part of StringMap for one address.
  unfoldable pub set_address : String → String → Address → Building → Building
  set_address name port none b = b
  set_address name port (some (some sa)) b =
      set_label port (print sa.port_value) (set_label name sa.address b)
  set_address name port (some none) b = record b {
    counters = record (b.counters) {
      address_format_unsupported = b.counters.address_format_unsupported + 1;
    };
  }

  -- pbDurationDeterministicString, which is called where the duration is not nil
  abbrev pub pb_duration_deterministic_string : Option ℤ → Option String
  pb_duration_deterministic_string none = none
  pb_duration_deterministic_string (some nanoseconds) = some (concat (print_int nanoseconds) "ns")

  -- The part for one duration, on what pbDurationDeterministicString returns.
  abbrev pub set_printed : String → Option String → Building → Building
  set_printed name (some duration) b = set_label name duration b
  set_printed name none b = record b {
    counters = record (b.counters) { invalid_duration = b.counters.invalid_duration + 1 };
  }

  unfoldable pub set_duration : String → Duration → Building → Building
  set_duration name none b = b
  set_duration name (some d) b = set_printed name (pb_duration_deterministic_string d) b

  -- The part for the start time.
  unfoldable pub set_time : String → Time → Building → Building
  set_time name none b = b
  set_time name (some (some t)) b = set_label name t b
  set_time name (some none) b = record b {
    counters = record (b.counters) { invalid_timestamp = b.counters.invalid_timestamp + 1 };
  }

  -- The addresses of StringMap, the ones behind the cluster apart.
  unfoldable pub downstream_addresses : CommonProperties → Building → Building
  downstream_addresses p b =
      set_address "downstreamLocalAddress" "downstreamLocalPort" p.downstream_local_address (
        set_address "downstreamRemoteAddress" "downstreamRemotePort" p.downstream_remote_address (
          set_address "downstreamDirectRemoteAddress" "downstreamDirectRemotePort"
            p.downstream_direct_remote_address b))

  unfoldable pub upstream_addresses : CommonProperties → Building → Building
  upstream_addresses p b =
      set_address "upstreamRemoteAddress" "upstreamRemotePort" p.upstream_remote_address
        (set_address "upstreamLocalAddress" "upstreamLocalPort" p.upstream_local_address b)

  unfoldable pub first_durations : CommonProperties → Building → Building
  first_durations p b = set_duration "timeToFirstUpstreamTxByte" p.time_to_first_upstream_tx_byte (
      set_duration "timeToFirstUpstreamRxByte" p.time_to_first_upstream_rx_byte
        (set_duration "timeToFirstDownstreamTxByte" p.time_to_first_downstream_tx_byte b))

  unfoldable pub last_durations : CommonProperties → Building → Building
  last_durations p b = set_duration "timeToLastUpstreamTxByte" p.time_to_last_upstream_tx_byte (
      set_duration "timeToLastUpstreamRxByte" p.time_to_last_upstream_rx_byte (
        set_duration "timeToLastRxByte" p.time_to_last_rx_byte
          (set_duration "timeToLastDownstreamTxByte" p.time_to_last_downstream_tx_byte b)))

  -- StringMap of the common properties
  unfoldable pub common_string_map : CommonProperties → Counters → Building
  common_string_map p c =
      let start : Building = record { labels = []; counters = c } in
      let routed = set_label "routeName" p.route_name (downstream_addresses p start) in
      let timed = last_durations p (first_durations p (set_time "startTime" p.start_time routed)) in
      let clustered = set_label "upstreamCluster" p.upstream_cluster timed in
      set_label "sampleRate" p.sample_rate (
        set_label "upstreamTransportFailureReason" p.upstream_transport_failure_reason
          (upstream_addresses p clustered))
