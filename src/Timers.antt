-- ===== src/Timers.antt =====
-- src/timers.cpp and src/timers.hpp: the timers of the engine, indexed by due time and by owner.
-- An operation that trips an `assert`, which traps, gives `none`. Each operation takes the readings
-- of the clock that it makes, in their order: `now k` is the one with number k. Times are counts of
-- nanoseconds and timeouts are not negative.
pub mod Defs
pub mod Erase
pub mod Index
pub mod Set
pub mod Cancel
pub mod Trigger
pub mod Schedule
pub mod Refines
pub mod Stale
mod Tests
