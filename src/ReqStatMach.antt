-- ===== src/ReqStatMach.antt =====
-- src/ReqStatMach.h: the machine that receives, parses and answers one client's request.
pub mod State
pub mod Line
pub mod Request
pub mod Buffer
pub mod Stream
pub mod Batch
pub mod Respond
pub mod Process
mod Tests
