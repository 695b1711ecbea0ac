-- ===== src/SloEventProducer.antt =====
-- pkg/slo_event_producer: rules turn a classified event into SLO events.
pub mod Operator
pub mod Rule
pub mod Evaluator
pub mod Metrics
