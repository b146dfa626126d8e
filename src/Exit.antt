-- ===== src/Exit.antt =====
-- src/main.cpp: class ExitTimer, which sets five timers of its own in the engine.
pub mod Order
mod Tests
use epoller.Prelude.{ℕ, ◌*◌, List, [], ◌∷◌, Option, some, ◌>>=◌}
use epoller.Query.Message.{one_sec_in_ns}
use epoller.Engine.Defs.{Engine, do_set_timer, do_cancel_timer, handle_timer_expired}

-- setTimers, of an object; its events timer0 to timer4 are the numbers from 0 to 4, and `now` are the
-- readings of the clock by each of the calls, in their order.
unfoldable pub set_timers : (ℕ → ℕ → ℕ) → ℕ → Engine → Option Engine
set_timers now self e = do
  e ← do_cancel_timer (now 0) (some self) 0 e
  e ← do_set_timer (now 1) (some self) 0 (5 * one_sec_in_ns) e
  e ← do_set_timer (now 2) (some self) 4 (4 * one_sec_in_ns) e
  e ← do_set_timer (now 3) (some self) 3 (3 * one_sec_in_ns) e
  e ← do_set_timer (now 4) (some self) 1 (1 * one_sec_in_ns) e
  e ← do_set_timer (now 5) (some self) 2 (2 * one_sec_in_ns) e
  do_cancel_timer (now 6) (some self) 1 e

-- The kernel's timer runs out, again and again.
unfoldable pub expire_all : List (ℕ → ℕ) → Engine → Option Engine
expire_all [] e = some e
expire_all (now ∷ more) e = handle_timer_expired now e >>= expire_all more
