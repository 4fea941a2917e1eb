-- ===== src/State/Postgres.antt =====
-- internal/state/pgstore.go: each method as the SQL statement that it executes, over the tables of
-- internal/state/migrations.sql. A statement can fail on the way to the server: `faults` says which
-- of the coming round trips do, and is any list. The proofs are in the modules below.
pub mod Tables
pub mod Entities
pub mod Progress
pub mod Alerts
pub mod Cursors
pub mod Log
pub mod Service
pub mod Steady
pub mod Replies
pub mod Steps
pub mod Fresh
pub mod Refines
pub mod Integrity
