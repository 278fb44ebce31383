-- ===== src/Console.antt =====
-- engine/cvar: the registry of cvars and commands, and the console lines that drive it.
pub mod Tokens
pub mod Numbers
pub mod Floats
pub mod Registry
pub mod Setting
pub mod Execute
pub mod Files
