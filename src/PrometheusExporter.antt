-- ===== src/PrometheusExporter.antt =====
-- pkg/prometheus_exporter: SLO events become counters at every level of aggregation.
pub mod Counter
pub mod Aggregation
pub mod Exporter
