-- ===== src/System.antt =====
-- wolf/src/system/os, wolf/src/system/script and wolf/src/system/chrono/time.rs: what the engine asks of
-- the operating system and of the script engines.
pub mod Processes
pub mod Screens
pub mod Scripts
mod Examples
