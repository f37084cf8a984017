-- ===== src/Backtrace.antt =====
-- backtrace.c, the text of a stack trace: its strings, its values and its frames.
pub mod Slashes
pub mod Buffer
pub mod Value
pub mod Dump
pub mod Frame
pub mod Chain
pub mod Walk
pub mod Walk5
mod Tests
