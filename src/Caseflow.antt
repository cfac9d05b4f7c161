-- ===== src/Caseflow.antt =====
-- Case flows: internal/caseflow.
pub mod Rows
pub mod Exec
pub mod Repository
pub mod Service
pub mod Config
pub mod Client
mod Examples
