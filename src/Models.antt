-- ===== src/Models.antt =====
-- The packages under models: what a model reads from the answer of a version query, and the statement
-- with which it changes a password. The SQL texts of the queries are not modelled.
pub mod Releases
pub mod Claims
pub mod Banners
pub mod Checks
pub mod Known
pub mod Products
pub mod Passwords
pub mod FollowUp
