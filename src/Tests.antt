-- ===== src/Tests.antt =====
-- Concrete inputs of the theorems about the session, the line and the screen.
pub mod Fixtures
pub mod Line
pub mod Bytes
pub mod Screen
pub mod Sessions
pub mod Daemon
pub mod Serving
pub mod ShellHooks
pub mod Processes
pub mod Running
