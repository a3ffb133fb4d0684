-- ===== src/Container.antt =====
-- The package container: the servers and the native clients that the repository starts. Each module
-- below this one is about a file of it or a part of one.
pub mod Shell
pub mod Servers
pub mod Lookup
pub mod Releases
pub mod Clients
pub mod Commands
pub mod Secrets
pub mod Exposed
