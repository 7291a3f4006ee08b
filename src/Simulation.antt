-- ===== src/Simulation.antt =====
-- src/chronos/simulation: the events of the simulated machine and its services.
pub mod Bus
pub mod Services
