-- ===== src/Engine/Reached.antt =====
-- src/engine.cpp: the states that the engine reaches, and what holds in all of them.
use epoller.Prelude.{ℕ, ◌+◌, ◌<◌, ◌≡◌, refl, Bool, false, [], Option, none, some, size_mod, arith}
use epoller.Timers.Defs.{start_event}
use epoller.Engine.Defs.{
  Engine, Event, find, do_add, do_remove, do_set_timer, do_cancel_timer, handle_timer_expired,
  new_event, do_run_async,
}
use epoller.Engine.Registry.{IsNew}
use epoller.Engine.Sound.{
  Sound, set-Sound, cancel-Sound, add-Sound, remove-Sound, expire-Sound, has_event-Sound,
}

abbrev pub initial : Engine
initial = record {
  stopping = false;
  ev_counter = 0;
  ev_id = λ sock. 0;
  event_hash = [];
  event_queue = [];
  sem = 0;
  timer_event = none;
  timers = record { times_by_date = []; timers_by_owner = [] };
  controls = [];
}

-- The states that the operations reach from the start, as long as no assertion traps and each socket is
-- added once.
pub data Reached : Engine → Type 0 where
  start : Reached initial
  adds :
      {e e' : Engine} (epoll_out : Bool) (what : ℕ)
      → Reached e
      → IsNew what e
      → e.ev_counter + 1 < size_mod
      → do_add epoll_out what e ≡ some e'
      → Reached e'
  removes :
      {e e' : Engine} (now : ℕ) (what : Option ℕ)
      → Reached e
      → do_remove now what e ≡ some e'
      → Reached e'
  sets_timer :
      {e e' : Engine} (now : ℕ → ℕ) (owner : Option ℕ) (timer timeout : ℕ)
      → Reached e
      → do_set_timer now owner timer timeout e ≡ some e'
      → Reached e'
  cancels_timer :
      {e e' : Engine} (now : ℕ → ℕ) (owner : Option ℕ) (timer : ℕ)
      → Reached e
      → do_cancel_timer now owner timer e ≡ some e'
      → Reached e'
  expires :
      {e e' : Engine} (now : ℕ → ℕ) → Reached e → handle_timer_expired now e ≡ some e' → Reached e'
  has_event : {e : Engine} (ev_id events : ℕ) → Reached e → Reached (new_event ev_id events e)
  runs_async : {e : Engine} (event : Event) → Reached e → Reached (do_run_async event e)

-- In every state that the engine reaches, whatever is added, removed, set, cancelled, expires or
-- happens, each id has at most one socket, which has that id, and it is one that has been given out; the
-- timers' indexes agree; and the event that is armed is that of the earliest timer.
pub Reached-Sound : (e : Engine) → Reached e → Sound e
unfolding find start_event do_run_async
Reached-Sound e start = (
  record { once = λ id. omega arith; ids = λ id sock h. cc; given = λ id sock h. cc },
  record {
    inv = record { sorted = tt; same = λ p. refl; once = λ o i. omega arith };
    armed = refl;
  },
)
Reached-Sound e' (adds {e} epoll_out what r new room h) =
    add-Sound epoll_out what e e' (Reached-Sound e r) new room h
Reached-Sound e' (removes {e} now what r h) = remove-Sound now what e e' (Reached-Sound e r) h
Reached-Sound e' (sets_timer {e} now owner timer timeout r h) =
    set-Sound now owner timer timeout e e' (Reached-Sound e r) h
Reached-Sound e' (cancels_timer {e} now owner timer r h) =
    cancel-Sound now owner timer e e' (Reached-Sound e r) h
Reached-Sound e' (expires {e} now r h) = expire-Sound now e e' (Reached-Sound e r) h
Reached-Sound e' (has_event {e} ev_id events r) = has_event-Sound ev_id events e (Reached-Sound e r)
Reached-Sound e' (runs_async {e} event r) =
    let s = Reached-Sound e r in
    (
      record { once = s.0.once; ids = s.0.ids; given = s.0.given },
      record { inv = s.1.inv; armed = s.1.armed },
    )
