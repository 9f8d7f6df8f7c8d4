-- ===== src/Ingress.antt =====
-- internal/ingress: the ways by which alerts reach the engine, and what is counted of them. Each
-- handler hands an alert to the engine (`ProcessAlert`) and its result to the metrics.
pub mod Metrics
pub mod Processor
pub mod Http
pub mod Socket
pub mod Poller
mod Tests
