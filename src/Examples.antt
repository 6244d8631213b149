-- ===== src/Examples.antt =====
-- The programs of examples/framework-intro/, and the pool of examples/multitasking/.
pub mod Timers
pub mod Chat
pub mod Blocking
pub mod EarlierPool
pub mod RespondHttp
pub mod TimingChat
