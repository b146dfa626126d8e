-- ===== src/Ping.antt =====
-- src/main.cpp: class PingTimer, whose timer sets itself again, with the calls that the engine and its workers make.
pub mod Goes
mod Tests
use epoller.Prelude.{ℕ, ◌-◌, ◌==◌, ◌&&◌, if◌then◌else◌, List, [], ◌∷◌, Option, some, ◌>>=◌}
use epoller.Query.Message.{one_sec_in_ns}
use epoller.Engine.Defs.{Engine, Event, run_socket, call_owner, do_set_timer, handle_timer_expired}

-- The object and its Event.
pub record PingTimer : Type 0 where
  pub self : ℕ
  pub timer : ℕ

-- set, whose event is the object's timedout.
unfoldable pub set : (ℕ → ℕ) → PingTimer → Engine → Option Engine
set now p e = do_set_timer now (some p.self) p.timer one_sec_in_ns e

-- timedout.
unfoldable pub timedout : (ℕ → ℕ) → PingTimer → Engine → Option Engine
timedout now p e = do_set_timer now (some p.self) p.timer one_sec_in_ns e

-- What an event runs: timedout, where it is the object's; other events do nothing here.
unfoldable pub run_event : (ℕ → ℕ) → PingTimer → Event → Engine → Option Engine
unfolding timedout
run_event now p (run_socket sock events) e = some e
run_event now p (call_owner owner id) e =
    if owner == p.self && id == p.timer then timedout now p e else some e

-- A worker takes the event in front, if there is one.
unfoldable pub serve : (ℕ → ℕ) → PingTimer → List Event → Engine → Option Engine
unfolding run_event
serve now p [] e = some e
serve now p (event ∷ rest) e = run_event now p event (record e { event_queue = rest })

-- The kernel's timer runs out and a worker serves the event, each with its readings of the clock.
pub record Ring : Type 0 where
  pub expiry : ℕ → ℕ
  pub now : ℕ → ℕ

unfoldable pub ring : PingTimer → Ring → Engine → Option Engine
unfolding serve
ring p r e = do
  e' ← handle_timer_expired r.expiry e
  serve r.now p e'.event_queue (record e' { sem = e'.sem - 1 })

unfoldable pub ring_all : PingTimer → List Ring → Engine → Option Engine
unfolding ring
ring_all p [] e = some e
ring_all p (r ∷ rings) e = ring p r e >>= ring_all p rings
