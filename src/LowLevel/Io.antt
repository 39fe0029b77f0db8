-- ===== src/LowLevel/Io.antt =====
-- src/low_level/io: the captured output, the input to write, and the drain over both.
pub mod Buffer
pub mod Writer
pub mod Drain
