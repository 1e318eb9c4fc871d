-- ===== src/Tests.antt =====
-- Concrete events and runs: tests of the definitions, and the theorems at inputs.
mod Wire
mod Hooks
mod Ring
mod Threads
pub mod Manager
mod Render
mod Debug
mod Stats
mod Session
