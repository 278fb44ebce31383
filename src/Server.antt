-- ===== src/Server.antt =====
-- engine/console: the remote console server and its passwords.
pub mod Base64
pub mod Sessions
pub mod Login
pub mod Line
pub mod Clients
pub mod Messages
pub mod Hashing
pub mod Queue
pub mod Lifecycle
