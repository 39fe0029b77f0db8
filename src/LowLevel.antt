-- ===== src/LowLevel.antt =====
-- src/low_level: system errors, file descriptors and the streams of a child process.
pub mod Libc
pub mod Fd
pub mod Io
pub mod Reactor
pub mod Spawn
pub mod Sys
pub mod Exec
pub mod Signals
pub mod Launch
pub mod WaitLoop
pub mod Synchronous
pub mod Tests
pub mod WaitLoopTests
pub mod LaunchTests
pub mod PlainTable
pub mod PlainSignals
pub mod DescriptorTests
