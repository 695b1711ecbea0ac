-- ===== src/RulesGenerator.antt =====
-- The generator of Prometheus rules in tools/slo-rules-generator. Reading and writing YAML, and the
-- files, are parameters of its main.
pub mod Conditions
pub mod Rules
pub mod Validation
pub mod Generate
