-- ===== src/Fl.antt =====
-- pkg/fl: the federated-learning parts of the manager.
pub mod Sanitize
pub mod Rounds
pub mod Aggregate
