-- ===== src/Core.antt =====
-- src/core: the action loop's data, modules and dispatcher.
pub mod Types
pub mod Admission
pub mod Timeout
pub mod Lifecycle
pub mod Process
pub mod Io
pub mod ResultStore
pub mod Dispatcher
pub mod Effects
pub mod Machine
pub mod Tests
pub mod ResultTests
pub mod TimeoutTests
