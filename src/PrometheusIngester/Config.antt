-- ===== src/PrometheusIngester/Config.antt =====
-- The configuration of pkg/prometheus_ingester/prometheus_ingester.go. The client of the Prometheus
-- API is a parameter: whether it can be created for an address.
use slo_exporter.Prelude.{
  ℕ, ℤ, ◌≡◌, refl, String, Bool, true, false, not, ◌==◌, Option, none, some, List, [], ◌∷◌, map,
  contains, nat_eq, arith, All, Bool-cases, inl, inr, ◌↔◌, if◌then◌else◌,
}
use slo_exporter.Prelude.Results.{Result, ok, err, ◌>>=◌, Result-cases}
use slo_exporter.StringMap.{StringMap}
use slo_exporter.PrometheusIngester.{QueryOptions}

abbrev pub simple_query_type : String
simple_query_type = "simple"

abbrev pub counter_query_type : String
counter_query_type = "counter_increase"

abbrev pub histogram_query_type : String
histogram_query_type = "histogram_increase"

abbrev pub valid_query_types : List String
valid_query_types = simple_query_type ∷ counter_query_type ∷ histogram_query_type ∷ []

-- queryOptions as they are configured; a pointer is an option.
pub record ConfiguredQuery : Type 0 where
  pub query : String
  pub interval : ℤ
  pub drop_labels : List String
  pub additional_labels : StringMap
  pub query_type : String
  pub result_as_quantity : Option Bool

-- Durations in nanoseconds; one that is not configured is 0. The timeout and the staleness are taken
-- not to be negative.
pub record PrometheusIngesterConfig : Type 0 where
  pub api_url : String
  pub queries : List ConfiguredQuery
  pub query_timeout : ℕ
  pub staleness : ℕ

-- queryExecutor, apart from what it has seen.
pub record QueryExecutor : Type 0 where
  pub query : String
  pub interval : ℤ
  pub query_type : String
  pub options : QueryOptions
  pub query_timeout : ℕ
  pub staleness : ℕ

pub data ConfigError : Type 0 where
  missing_query_timeout : ConfigError
  missing_api_url : ConfigError
  no_client : ConfigError
  unknown_query_type : String → ConfigError

-- 5 minutes
abbrev pub default_staleness : ℕ
default_staleness = 300000000000

-- validateQueryType, with its loop over the valid types
unfoldable pub validate_query_type : String → Bool
validate_query_type query_type = contains query_type valid_query_types

-- The default of ResultAsQuantity.
abbrev pub default_as_quantity : String → Bool
default_as_quantity query_type =
    if query_type == counter_query_type
    then true
    else if query_type == histogram_query_type
    then true
    else false

abbrev pub as_quantity : ConfiguredQuery → Bool
as_quantity q = elim q.result_as_quantity [
  | none ↦ default_as_quantity q.query_type
  | some configured ↦ configured
]

abbrev pub executor_of : ℕ → ℕ → ConfiguredQuery → QueryExecutor
executor_of query_timeout staleness q = record {
  query = q.query;
  interval = q.interval;
  query_type = q.query_type;
  options = record {
    result_as_quantity = as_quantity q;
    drop_labels = q.drop_labels;
    additional_labels = q.additional_labels;
  };
  query_timeout = query_timeout;
  staleness = staleness;
}

-- The loop of New over the queries.
unfoldable pub new_executors :
    ℕ → ℕ → List ConfiguredQuery → Result ConfigError (List QueryExecutor)
new_executors query_timeout staleness [] = ok []
new_executors query_timeout staleness (q ∷ queries) =
    let others = new_executors query_timeout staleness queries in
    if not (validate_query_type q.query_type)
    then err (unknown_query_type q.query_type)
    else do rest ← others; ok (executor_of query_timeout staleness q ∷ rest)

unfoldable pub new :
    (String → Bool) → PrometheusIngesterConfig → Result ConfigError (List QueryExecutor)
new new_client config =
    if not (new_client config.api_url)
    then err no_client
    else new_executors config.query_timeout config.staleness config.queries

unfoldable pub new_from_viper :
    (String → Bool) → PrometheusIngesterConfig → Result ConfigError (List QueryExecutor)
new_from_viper new_client config =
    if nat_eq config.query_timeout 0
    then err missing_query_timeout
    else if config.api_url == ""
    then err missing_api_url
    else new new_client (record config {
      staleness = if nat_eq config.staleness 0 then default_staleness else config.staleness;
    })

-- A query with a type that New knows.
abbrev pub IsValid : ConfiguredQuery → Type 0
IsValid q = validate_query_type q.query_type ≡ true

new_executors-IsValid :
    (query_timeout staleness : ℕ) (queries : List ConfiguredQuery)
    → All IsValid queries
    → new_executors query_timeout staleness queries
      ≡ ok (map (executor_of query_timeout staleness) queries)
unfolding new_executors
new_executors-IsValid query_timeout staleness [] h = refl
new_executors-IsValid query_timeout staleness (q ∷ queries) h =
    rw (h.0, new_executors-IsValid query_timeout staleness queries h.1) refl

IsValid-new_executors :
    (query_timeout staleness : ℕ) (queries : List ConfiguredQuery) (es : List QueryExecutor)
    → new_executors query_timeout staleness queries ≡ ok es
    → All IsValid queries
unfolding new_executors
IsValid-new_executors query_timeout staleness [] es e = tt
IsValid-new_executors query_timeout staleness (q ∷ queries) es e =
    elim (Bool-cases (validate_query_type q.query_type)) [
      | inr unknown ↦ absurd (ground arith)
      | inl known ↦ elim (Result-cases (new_executors query_timeout staleness queries)) [
        | inr (x, failed) ↦ absurd (ground arith)
        | inl (rest, made) ↦
            (known, IsValid-new_executors query_timeout staleness queries rest made)
      ]
    ]

-- Where the timeout and the address are set and a client can be created, New makes an executor for
-- each query, in their order, if every query has a known type, and none otherwise; the staleness is
-- the configured one or, without one, five minutes.
pub new_from_viper_iff :
    (new_client : String → Bool) (config : PrometheusIngesterConfig) (es : List QueryExecutor)
    → nat_eq config.query_timeout 0 ≡ false
    → (config.api_url == "") ≡ false
    → new_client config.api_url ≡ true
    → (new_from_viper new_client config ≡ ok es) ↔ (
        All IsValid config.queries
        × (es
            ≡ map
                (executor_of config.query_timeout
                  (if nat_eq config.staleness 0 then default_staleness else config.staleness))
                config.queries))
unfolding new_from_viper new
new_from_viper_iff new_client config es timed addressed client =
    let staleness = if nat_eq config.staleness 0 then default_staleness else config.staleness in
    let outcome : new_from_viper new_client config
        ≡ new_executors config.query_timeout staleness config.queries =
      ground arith in
    let valid = new_executors-IsValid config.query_timeout staleness config.queries in
    rw outcome (
      λ made.
          let known = IsValid-new_executors config.query_timeout staleness config.queries es made in
          let same = valid known in (known, cc),
      λ (known, same). rw same (valid known),
    )
