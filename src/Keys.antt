-- ===== src/Keys.antt =====
-- engine/platform/Keybindings.h and Keybindings.cpp: the key bindings and their file.
pub mod Modifiers
pub mod Target
pub mod Bindings
pub mod Files
