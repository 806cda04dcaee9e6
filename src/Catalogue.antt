-- ===== src/Catalogue.antt =====
-- The catalogue of the core (core/rollup.py, core/riskclass.py, core/incremental.py).
pub mod Rollup
pub mod RiskClass
pub mod Incremental
