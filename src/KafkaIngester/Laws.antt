-- ===== src/KafkaIngester/Laws.antt =====
-- What the Kafka ingester of pkg/kafka_ingester/kafka_ingester.go sends and counts.
use slo_exporter.Prelude.{
  ℕ, suc, ◌+◌, ◌≡◌, refl, String, ◌==◌, eq_iff, Option, none, some, List, [], ◌∷◌, map, length,
  arith, ◌↔◌, ◌⊎◌, Bool-cases, inl, inr, Option-cases, or_else, if◌then◌else◌,
}
use slo_exporter.Prelude.Results.{ok, err, oks, count_errors, oks_cons, errors_cons}
use slo_exporter.Event.{Raw}
use mathlib.Core.Option
use slo_exporter.KafkaIngester.{
  classification_of, Header, Message, IngestedEventV1, unknown_schema_version,
  schema_version_message_header, schema_ver_v1, get_schema_version_from_headers, Read, message,
  ended, failed, Counters, process_event_v1, process_message, on_message, run,
}

-- The messages that are read before the end.
abbrev pub messages_of : List Read → List Message
messages_of [] = []
messages_of (ended ∷ rest) = []
messages_of (failed ∷ rest) = messages_of rest
messages_of (message m ∷ rest) = m ∷ messages_of rest

-- The failures before the end.
abbrev pub failures_of : List Read → ℕ
failures_of [] = 0
failures_of (ended ∷ rest) = 0
failures_of (failed ∷ rest) = suc (failures_of rest)
failures_of (message m ∷ rest) = failures_of rest

-- The values of the headers that give the schema version.
abbrev pub versions : List Header → List String
versions [] = []
versions (header ∷ rest) =
    let later = versions rest in
    if header.key == schema_version_message_header then header.value ∷ later else later

module _ {F : Type 0} (one : F) (unmarshal : String → Option (IngestedEventV1 F)) where
  on_message_result :
      (c : Counters) (m : Message)
      → let now = on_message one unmarshal c m in
        let result = process_message one unmarshal m in
        (now.1 ≡ oks (result ∷ []))
        × (now.0.messages_read_total ≡ c.messages_read_total + 1)
        × (now.0.malformed_messages_total ≡ c.malformed_messages_total + count_errors (result ∷ []))
        × (now.0.kafka_read_errors_total ≡ c.kafka_read_errors_total)
  unfolding on_message
  on_message_result c m = ground arith

  -- The ingester sends the events of the messages that it can process, in their order and up to the
  -- end of the input, and goes on after an error; it counts every message, every message that it
  -- cannot process as malformed, and every failed read.
  pub run-messages :
      (c : Counters) (reads : List Read)
      → let results = map (process_message one unmarshal) (messages_of reads) in
        let after = run one unmarshal c reads in
        (after.1 ≡ oks results)
        × (after.0.messages_read_total ≡ c.messages_read_total + length results)
        × (after.0.malformed_messages_total ≡ c.malformed_messages_total + count_errors results)
        × (after.0.kafka_read_errors_total ≡ c.kafka_read_errors_total + failures_of reads)
  unfolding run
  run-messages c [] = (refl, omega arith, omega arith, omega arith)
  run-messages c (ended ∷ rest) = (refl, omega arith, omega arith, omega arith)
  run-messages c (failed ∷ rest) =
      let later =
        run-messages (record c { kafka_read_errors_total = c.kafka_read_errors_total + 1 }) rest in
      (later.0, later.1, later.2, omega (arith, later.3))
  run-messages c (message m ∷ rest) =
      let now = on_message_result c m in
      let result = process_message one unmarshal m in
      let results = map (process_message one unmarshal) (messages_of rest) in
      let later = run-messages (on_message one unmarshal c m).0 rest in
      (
        rw (now.0, later.0) (oks_cons result results),
        omega (arith, later.1, now.1),
        omega (arith, later.2, now.2, errors_cons result results),
        omega (arith, later.3, now.3),
      )

  -- The version that processMessage switches on.
  abbrev pub IsV1 : Message → Type 0
  IsV1 m =
      (versions m.headers ≡ [])
      ⊎ ((rest : List String) × (versions m.headers ≡ schema_ver_v1 ∷ rest))

  -- The event with the decoded metadata and classification, and the decoded quantity or one.
  pub record IsDecoded (ingested : IngestedEventV1 F) (e : Raw F) : Type 0 where
    pub metadata : e.metadata ≡ ingested.metadata
    pub quantity : some e.quantity ≡ or_else ingested.quantity (some one)
    pub classification :
        e.slo_classification ≡ Option.map classification_of ingested.slo_classification

  version_of :
      (headers : List Header)
      → ((versions headers ≡ []) × (get_schema_version_from_headers headers ≡ none))
        ⊎ ((v : String) × (rest : List String) × (versions headers ≡ v ∷ rest)
            × (get_schema_version_from_headers headers ≡ some v))
  unfolding get_schema_version_from_headers
  version_of [] = inl (refl, refl)
  version_of (header ∷ rest) = elim (Bool-cases (header.key == schema_version_message_header)) [
    | inl here ↦ inr (header.value, versions rest, rw here refl, rw here refl)
    | inr other ↦ rw other (version_of rest)
  ]

  process_event_v1-IsDecoded :
      (m : Message) (e : Raw F) (ingested : IngestedEventV1 F)
      → unmarshal m.value ≡ some ingested
      → process_event_v1 one unmarshal m ≡ ok e
      → IsDecoded ingested e
  unfolding process_event_v1
  process_event_v1-IsDecoded m e ingested decoded processed = ground arith

  IsDecoded-process_event_v1 :
      (m : Message) (e : Raw F) (ingested : IngestedEventV1 F)
      → unmarshal m.value ≡ some ingested
      → IsDecoded ingested e
      → process_event_v1 one unmarshal m ≡ ok e
  unfolding process_event_v1
  IsDecoded-process_event_v1 m e ingested decoded h = ground arith

  process_event_v1_iff :
      (m : Message) (e : Raw F)
      → (process_event_v1 one unmarshal m ≡ ok e) ↔ (
          (ingested : IngestedEventV1 F) × (unmarshal m.value ≡ some ingested)
          × IsDecoded ingested e)
  unfolding process_event_v1
  process_event_v1_iff m e = (
    λ processed. elim (Option-cases (unmarshal m.value)) [
      | inl invalid ↦ absurd (ground arith)
      | inr (ingested, decoded) ↦
          (ingested, decoded, process_event_v1-IsDecoded m e ingested decoded processed)
    ],
    λ (ingested, decoded, h). IsDecoded-process_event_v1 m e ingested decoded h,
  )

  unversioned :
      (m : Message)
      → get_schema_version_from_headers m.headers ≡ none
      → process_message one unmarshal m ≡ process_event_v1 one unmarshal m
  unfolding process_message
  unversioned m not_found = rw not_found refl

  versioned :
      (m : Message) (v : String)
      → get_schema_version_from_headers m.headers ≡ some v
      → process_message one unmarshal m ≡ (
          if v == schema_ver_v1
          then process_event_v1 one unmarshal m
          else err (unknown_schema_version v))
  unfolding process_message
  versioned m v found = rw found refl

  -- A message is processed exactly when its first header for the schema version, if it has one, says
  -- v1 and its value can be decoded: then the event has the decoded metadata and classification, and
  -- the decoded quantity, or one where there is none.
  pub process_message_iff :
      (m : Message) (e : Raw F)
      → (process_message one unmarshal m ≡ ok e) ↔ (
          IsV1 m
          × ((ingested : IngestedEventV1 F) × (unmarshal m.value ≡ some ingested)
              × IsDecoded ingested e))
  unfolding process_message
  process_message_iff m e =
      let decodes = process_event_v1_iff m e in
      elim (version_of m.headers) [
        | inl (none_named, not_found) ↦
            rw (unversioned m not_found)
              (λ processed. (inl none_named, decodes.0 processed), λ h. decodes.1 h.1)
        | inr (v, rest, named, found) ↦ elim (Bool-cases (v == schema_ver_v1)) [
          | inl is_v1 ↦
              let same : v ≡ schema_ver_v1 = (eq_iff v schema_ver_v1).0 is_v1 in
              rw (versioned m v found, is_v1)
                (
                  λ processed. (inr (rest, rw (named, same) refl), decodes.0 processed),
                  λ h. decodes.1 h.1,
                )
          | inr other ↦ (
            λ processed. absurd (ground (arith, versioned m v found)),
            λ h. absurd (ground (arith, eq_iff v schema_ver_v1)),
          )
        ]
      ]
