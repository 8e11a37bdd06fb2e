-- ===== src/Engine.antt =====
-- internal/engine: the rule engine.
pub mod Path
pub mod Expression
pub mod Match
