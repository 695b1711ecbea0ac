-- ===== src/Stages.antt =====
-- The small processing modules between ingesters and the producer.
pub mod EventKeyGenerator
pub mod EventMetadataRenamer
pub mod Relabel
pub mod MetadataClassifier
