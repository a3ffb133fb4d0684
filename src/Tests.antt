-- ===== src/Tests.antt =====
-- Runs of the model on concrete inputs, and the theorems at inputs that meet their hypotheses.
mod Versions
mod Fragments
mod Statements
mod Passwords
mod Classes
mod Queries
mod Bytes
mod Models
mod Containers
mod Fixtures
mod Schemas
mod Tables
mod FollowUps
mod Impala
