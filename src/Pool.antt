-- ===== src/Pool.antt =====
-- src/ProcessPool.h, src/Process.h and src/Process.cc: the parent and its worker processes.
pub mod Process
pub mod Create
pub mod Turn
pub mod Loops
pub mod Parent
pub mod Child
pub mod Program
mod Tests
