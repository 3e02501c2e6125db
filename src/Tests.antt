-- ===== src/Tests.antt =====
-- Runs of the model on concrete states, and the theorems of the other files applied to them.
pub mod ListQueue
pub mod Events
pub mod Tables
pub mod Times
pub mod Buffers
pub mod Clocks
pub mod Saves
pub mod Codec
pub mod Files
pub mod Coroutines
pub mod Settings
