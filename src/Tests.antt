-- ===== src/Tests.antt =====
-- Runs of the model at concrete inputs.
mod Samples
mod Producer
mod Exporter
mod Stages
mod Classifiers
mod Maps
mod Ingester
mod Network
mod Readers
mod Queries
mod Tools
mod Commands
mod Servers
mod Shutdown
