-- ===== src/KafkaIngester.antt =====
-- The Kafka ingester of pkg/kafka_ingester/kafka_ingester.go. The kafka library and the decoding of
-- JSON are parameters: what ReadMessage returns is the input. The value of a header or of a message
-- is a text.
pub mod Laws
pub mod Shutdown
use slo_exporter.Prelude.{
  ℕ, ◌+◌, String, Bool, true, false, not, ◌==◌, Option, none, some, List, [], ◌∷◌, ◌++◌, ℤ, is_some,
  if◌then◌else◌,
}
use slo_exporter.Prelude.Dict.{Dict, lookup}
use slo_exporter.Prelude.Results.{Result, ok, err}
use slo_exporter.StringMap.{StringMap}
use slo_exporter.Event.{SloClassification, Raw}

pub record Header : Type 0 where
  pub key : String
  pub value : String

pub record Message : Type 0 where
  pub headers : List Header
  pub value : String

pub record IngestedEventV1Classification : Type 0 where
  pub domain : String
  pub app : String
  pub class : String

-- A missing or null field is `none`, for the metadata the empty map.
pub record IngestedEventV1 (F : Type 0) : Type 0 where
  pub metadata : StringMap
  pub slo_classification : Option IngestedEventV1Classification
  pub quantity : Option F

pub data MessageError : Type 0 where
  unknown_schema_version : String → MessageError
  invalid_json : MessageError

abbrev pub schema_version_message_header : String
schema_version_message_header = "slo-exporter-schema-version"

abbrev pub schema_ver_v1 : String
schema_ver_v1 = "v1"

abbrev pub default_schema_ver : String
default_schema_ver = schema_ver_v1

-- The configuration as it is read; a field that is not set is `none`.
pub record KafkaIngesterConfig : Type 0 where
  pub brokers : List String
  pub topic : String
  pub group_id : String
  pub fallback_start_offset : Option String

-- The part of kafka.ReaderConfig that New takes from the configuration.
pub record ReaderConfig : Type 0 where
  pub brokers : List String
  pub topic : String
  pub group_id : String
  pub start_offset : ℤ

-- fallbackStartOffsetMapping, with the constants of the kafka library.
abbrev pub fallback_start_offset_mapping : ℤ → ℤ → Dict ℤ
fallback_start_offset_mapping last_offset first_offset =
    ("LastOffset", last_offset) ∷ ("FirstOffset", first_offset) ∷ []

-- The default that NewFromViper sets.
abbrev pub fallback_of : KafkaIngesterConfig → String
fallback_of config = elim config.fallback_start_offset [ none ↦ "FirstOffset" | some name ↦ name ]

-- NewFromViper and New, up to the reader that they create: an unknown name is the error.
unfoldable pub new_from_viper : ℤ → ℤ → KafkaIngesterConfig → Result String ReaderConfig
new_from_viper last_offset first_offset config =
    elim (lookup (fallback_of config) (fallback_start_offset_mapping last_offset first_offset)) [
      | none ↦ err (fallback_of config)
      | some offset ↦ ok (record {
        brokers = config.brokers;
        topic = config.topic;
        group_id = config.group_id;
        start_offset = offset;
      })
    ]

-- getSchemaVersionFromHeaders, with `none` for not found
unfoldable pub get_schema_version_from_headers : List Header → Option String
get_schema_version_from_headers [] = none
get_schema_version_from_headers (header ∷ rest) =
    let later = get_schema_version_from_headers rest in
    if header.key == schema_version_message_header then some header.value else later

-- The classification that processEventV1 sets.
abbrev pub classification_of : IngestedEventV1Classification → SloClassification
classification_of c = record { domain = c.domain; app = c.app; class = c.class }

-- What ReadMessage returns: a message, io.EOF or context.Canceled, or another error.
pub data Read : Type 0 where
  message : Message → Read
  ended : Read
  failed : Read

pub record Counters : Type 0 where
  pub messages_read_total : ℕ
  pub malformed_messages_total : ℕ
  pub kafka_read_errors_total : ℕ

module _ {F : Type 0} (one : F) (unmarshal : String → Option (IngestedEventV1 F)) where
  unfoldable pub process_event_v1 : Message → Result MessageError (Raw F)
  process_event_v1 m = elim (unmarshal m.value) [
    | none ↦ err invalid_json
    | some ingested ↦ ok (record {
      metadata = ingested.metadata;
      quantity = elim ingested.quantity [ none ↦ one | some quantity ↦ quantity ];
      slo_classification = elim ingested.slo_classification [
        | none ↦ none
        | some c ↦ some (classification_of c)
      ];
    })
  ]

  unfoldable pub process_message : Message → Result MessageError (Raw F)
  process_message m =
      let schema_ver : String = elim (get_schema_version_from_headers m.headers) [
        | none ↦ default_schema_ver
        | some version ↦ version
      ] in
      if schema_ver == schema_ver_v1
      then process_event_v1 m
      else err (unknown_schema_version schema_ver)

  -- A message in the loop of Run.
  unfoldable pub on_message : Counters → Message → Counters × List (Raw F)
  on_message c m = elim (process_message m) [
    | err e ↦ (
      record c {
        messages_read_total = c.messages_read_total + 1;
        malformed_messages_total = c.malformed_messages_total + 1;
      },
      [],
    )
    | ok e ↦ (record c { messages_read_total = c.messages_read_total + 1 }, e ∷ [])
  ]

  -- The loop of Run's main goroutine, with the events that it sends.
  unfoldable pub run : Counters → List Read → Counters × List (Raw F)
  run c [] = (c, [])
  run c (ended ∷ rest) = (c, [])
  run c (failed ∷ rest) =
      run (record c { kafka_read_errors_total = c.kafka_read_errors_total + 1 }) rest
  run c (message m ∷ rest) =
      let now = on_message c m in let later = run now.0 rest in (later.0, now.1 ++ later.1)
