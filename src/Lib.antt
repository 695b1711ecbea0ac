-- ===== src/Lib.antt =====
-- slo-exporter turns events about requests into Prometheus counters of SLO successes and failures.
-- A pipeline of modules passes raw events along, each from its input channel to its output
-- channel: ingesters produce them, the stages give them an event key, other metadata and an SLO
-- classification, the producer makes SLO events of them by rules, and the exporter counts these.
--
-- Prelude: the names that the modules share. Go's maps are association lists (Prelude/Dict) whose
--   order stands for the order of a range loop; an int that may be negative is in Prelude/Int.
-- Runtime: the parameters float64 with strconv, regexp and time.ParseDuration. Sums are in the
--   order in which the code adds, and no law is assumed but that of `<` which one theorem names.
-- StringMap: pkg/stringmap/stringmap.go, each method under its name in snake case; String is
--   to_string.
-- Event: pkg/event (raw.go, slo.go, slo_classification.go).
-- Storage: pkg/storage/in_memory.go.
-- SloEventProducer: pkg/slo_event_producer. Operator is operator.go, Rule is rule.go with the options
--   of config.go, Evaluator is event_evaluator.go with Run of slo_event_producer.go, and Metrics is
--   the export of thresholds in event_evaluator.go.
-- PrometheusExporter: pkg/prometheus_exporter. Counter and Aggregation are aggregating_counter.go with
--   newExemplar of exemplars.go, Exporter is prometheus_exporter.go.
--   Counter/Collect and Exporter/Scrape are what a scrape of Prometheus collects of them.
-- DynamicClassifier: pkg/dynamic_classifier; its child Csv is the loading of matchers from
--   rows, and Csv/Files from the files that are dumped.
-- StatisticalClassifier: weighted_classifier.go of pkg/statistical_classifier; its child Running is the
--   module of statistical_classifier.go with the ticks of its ticker.
-- Stages: pkg/event_key_generator, pkg/event_metadata_renamer, pkg/relabel and
--   pkg/metadata_classifier.
-- Pipeline: pkg/pipeline/manager.go with the interfaces of module.go. Its child Network has the Run
--   loops of the modules as goroutines: a step relation over unbuffered channels, in which a send and
--   the receive that it meets are one step, with (*Manager).Done and the wait of StopPipeline.
--   Its child Metrics is the registration of the modules' metrics.
-- PrometheusIngester: pkg/prometheus_ingester. Its text is the results of query_executor.go for
--   counters and simple queries, Histogram is processHistogramIncrease, Executor is the loop of run
--   with execute and ProcessResult, Config is the configuration in prometheus_ingester.go, and Shutdown
--   has Run with the executors as goroutines: a step relation.
-- Tailer: pkg/tailer/tailer.go; its child Reading is the loop of Run.
-- KafkaIngester: pkg/kafka_ingester/kafka_ingester.go; its child Shutdown has the two goroutines of
--   Run as a step relation.
-- Envoy: pkg/envoy_access_log_server, the metadata (Common) and the events (Entries) of log entries in
--   service_v3.go, and Run and Stop of access_log_server.go with the handlers of streams (Server), a
--   step relation.
-- Prober: pkg/prober/prober.go.
-- RulesGenerator: tools/slo-rules-generator; Conditions is the configuration with the references of
--   conditions, Validation the errors of a domain, Rules the rules, and Generate main.
-- Command: the factory of modules in cmd/slo_exporter.go, with the interfaces of each module; Metrics,
--   the metrics that each registers; Main, main up to its loop with pkg/config; and Waiting, the loop of
--   main with the shutdown, a step relation.
-- Flow: the producer in front of the exporter; its child Modules is a reader, the relabeling, the key
--   generator, the producer and the exporter as the goroutines of one pipeline.
-- Tests: the theorems at concrete inputs.
--
-- State is passed explicitly: an operation takes the state and returns the next one, a Run loop is a
-- recursion over what it receives and returns what it sends, and a lock makes an operation one step.
-- Pipeline/Network says why a Run loop may be read so. A loop of the code goes over a list, or is a
-- goroutine of a step relation, so no function needs fuel. Counters are natural numbers. What a module
-- gets from outside is part of its input: the lines and offsets of the tail library, the messages of Kafka, the answers of the
-- Prometheus API, the entries of Envoy. Prometheus' relabel.Process, the sampler of gonum,
-- strcase.ToSnake, strings.ToLower, encoding/csv, the decoding of JSON, the groups of a regular
-- expression, fingerprints, the making of a module from its configuration, viper, the registry of
-- Prometheus and the limit on exemplars are arguments.
--
-- Not modelled: the parsing of flags and YAML, the HTTP servers with the web interface and the handler
-- of the log level, logs and the timing of events.
mod Prelude
pub mod StringMap
pub mod Event
pub mod Storage
pub mod Runtime
pub mod SloEventProducer
pub mod PrometheusExporter
mod Flow
mod Tests
pub mod DynamicClassifier
pub mod Stages
pub mod StatisticalClassifier
pub mod Pipeline
pub mod PrometheusIngester
pub mod Tailer
pub mod KafkaIngester
pub mod Prober
pub mod Envoy
pub mod RulesGenerator
pub mod Command
