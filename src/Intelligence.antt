-- ===== src/Intelligence.antt =====
-- src/chronos/intelligence: the circuit breaker before the model, lazy generation, and what may be generated.
use apate.Prelude.{nat_eq, string_eq}
pub mod Breaker
pub mod Generation
pub mod Policy
pub mod Validator
pub mod Stream
pub mod Workers
