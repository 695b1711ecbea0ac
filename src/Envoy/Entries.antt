-- ===== src/Envoy/Entries.antt =====
-- The HTTP and TCP entries of pkg/envoy_access_log_server/service_v3.go, and the events of a message.
-- `none` as a result is the panic on a nil pointer; the names of enumerations are given.
pub mod Events
use slo_exporter.Prelude.{ℕ, ◌+◌, String, Option, none, some, List, [], ◌∷◌, ◌++◌, ℤ, concat}
use slo_exporter.Prelude.Dict.{Dict, insert}
use slo_exporter.StringMap.{StringMap, merge}
use slo_exporter.Event.{Raw}
use slo_exporter.Envoy.Common.{CommonProperties, Counters, Building, set_label, common_string_map}

-- HTTPRequestProperties, with the name of the method
pub record RequestProperties : Type 0 where
  pub authority : String
  pub forwarded_for : String
  pub original_path : String
  pub path : String
  pub referer : String
  pub request_headers : Dict String
  pub request_body_bytes : ℕ
  pub request_headers_bytes : ℕ
  pub request_id : String
  pub request_method : String
  pub scheme : String
  pub user_agent : String

-- HTTPResponseProperties; GetValue of a nil response code is 0
pub record ResponseProperties : Type 0 where
  pub response_body_bytes : ℕ
  pub response_code_details : String
  pub response_code : ℕ
  pub response_headers_bytes : ℕ
  pub response_headers : Dict String
  pub response_trailers : Dict String

pub record HttpEntry : Type 0 where
  pub common : Option CommonProperties
  pub protocol_version : String
  pub request : Option RequestProperties
  pub response : Option ResponseProperties

pub record ConnectionProperties : Type 0 where
  pub received_bytes : ℕ
  pub sent_bytes : ℕ

pub record TcpEntry : Type 0 where
  pub common : Option CommonProperties
  pub connection : Option ConnectionProperties

-- StreamAccessLogsMessage
pub data LogsMessage : Type 0 where
  http_logs : List HttpEntry → LogsMessage
  tcp_logs : List TcpEntry → LogsMessage
  other_logs : LogsMessage

-- What Recv returns: a message, io.EOF, or another error.
pub data Received : Type 0 where
  received : LogsMessage → Received
  end_of_stream : Received
  stream_failed : Received

module _ (print : ℕ → String) (print_int : ℤ → String) where
  -- for name, value := range headers { result[prefix+name] = value }
  unfoldable pub set_headers : String → Dict String → StringMap → StringMap
  set_headers prefix [] result = result
  set_headers prefix ((name, value) ∷ headers) result =
      set_headers prefix headers (insert (concat prefix name) value result)

  unfoldable pub request_string_map : RequestProperties → StringMap
  request_string_map r =
      let before = insert "referer" r.referer (
        insert "path" r.path (
          insert "originalPath" r.original_path
            (insert "forwardedFor" r.forwarded_for (insert "authority" r.authority [])))) in
      insert "userAgent" r.user_agent (
        insert "scheme" r.scheme (
          insert "requestMethod" r.request_method (
            insert "requestId" r.request_id (
              insert "requestHeadersBytes" (print r.request_headers_bytes) (
                insert "requestBodyBytes" (print r.request_body_bytes)
                  (set_headers "http_" r.request_headers before))))))

  unfoldable pub response_string_map : ResponseProperties → StringMap
  response_string_map r = set_headers "sent_trailer_" r.response_trailers (
      set_headers "sent_http_" r.response_headers (
        insert "responseHeadersBytes" (print r.response_headers_bytes) (
          insert "responseCode" (print r.response_code) (
            insert "responseCodeDetails" r.response_code_details
              (insert "responseBodyBytes" (print r.response_body_bytes) [])))))

  -- StringMap of an HTTP entry
  unfoldable pub http_string_map : HttpEntry → Counters → Option Building
  http_string_map l c = elim l.common [
    | none ↦ none
    | some p ↦ elim l.request [
      | none ↦ none
      | some request ↦ elim l.response [
        | none ↦ none
        | some response ↦
            let common = common_string_map print print_int p c in
            some (record common {
              labels =
                  merge
                    (merge (insert "protocolVersion" l.protocol_version common.labels)
                      (request_string_map request))
                    (response_string_map response);
            })
      ]
    ]
  ]

  -- StringMap of a TCP entry
  unfoldable pub tcp_string_map : TcpEntry → Counters → Option Building
  tcp_string_map l c = elim l.common [
    | none ↦ none
    | some p ↦ elim l.connection [
      | none ↦ none
      | some connection ↦ some (
          set_label "sentBytes" (print connection.sent_bytes) (
            set_label "receivedBytes" (print connection.received_bytes)
              (common_string_map print print_int p c)))
    ]
  ]

  module _ {F : Type 0} (one : F) where
    abbrev pub entry_event : StringMap → Raw F
    entry_event labels = record { metadata = labels; slo_classification = none; quantity = one }

    -- The loop of emitEvents over HTTP entries; the counter of entries comes first.
    unfoldable pub emit_http : List HttpEntry → Counters → Option (List (Raw F) × Counters)
    emit_http [] c = some ([], c)
    emit_http (l ∷ logs) c =
        elim (http_string_map l (record c { http_entries = c.http_entries + 1 })) [
          | none ↦ none
          | some b ↦ elim (emit_http logs b.counters) [
            | none ↦ none
            | some (events, c') ↦ some (entry_event b.labels ∷ events, c')
          ]
        ]

    unfoldable pub emit_tcp : List TcpEntry → Counters → Option (List (Raw F) × Counters)
    emit_tcp [] c = some ([], c)
    emit_tcp (l ∷ logs) c = elim (tcp_string_map l (record c { tcp_entries = c.tcp_entries + 1 })) [
      | none ↦ none
      | some b ↦ elim (emit_tcp logs b.counters) [
        | none ↦ none
        | some (events, c') ↦ some (entry_event b.labels ∷ events, c')
      ]
    ]

    unfoldable pub emit_events : LogsMessage → Counters → Option (List (Raw F) × Counters)
    emit_events (http_logs logs) c = emit_http logs c
    emit_events (tcp_logs logs) c = emit_tcp logs c
    emit_events other_logs c = some ([], record c { unknown_log_type = c.unknown_log_type + 1 })

    -- The loop of StreamAccessLogs: it ends with the stream, or with an error that is counted.
    unfoldable pub stream_access_logs : List Received → Counters → Option (List (Raw F) × Counters)
    stream_access_logs [] c = some ([], c)
    stream_access_logs (end_of_stream ∷ rest) c = some ([], c)
    stream_access_logs (stream_failed ∷ rest) c =
        some ([], record c { processing_stream = c.processing_stream + 1 })
    stream_access_logs (received msg ∷ rest) c = elim (emit_events msg c) [
      | none ↦ none
      | some (events, c') ↦ elim (stream_access_logs rest c') [
        | none ↦ none
        | some (later, c'') ↦ some (events ++ later, c'')
      ]
    ]
