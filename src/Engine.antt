-- ===== src/Engine.antt =====
-- src/engine.cpp, src/engine.hpp, src/event.cpp and src/semaphore.cpp: the engine's queue of events, its
-- sockets and its timers, and the workers that run the events.
pub mod Defs
pub mod Registry
pub mod Expiry
pub mod Remove
pub mod Sound
pub mod Reached
pub mod Loop
pub mod Ends
pub mod Workforce
pub mod Work
pub mod Static
pub mod Early
pub mod Workers
pub mod Balanced
pub mod Drain
mod Tests
mod LoopTests
