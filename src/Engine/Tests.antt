-- ===== src/Engine/Tests.antt =====
-- Runs of src/engine.cpp, and the theorems at them.
use epoller.Prelude.{
  ℕ, ◌+◌, ◌≡◌, ◌≢◌, refl, true, false, not, [], ◌∷◌, some, arith, ◌==◌, if◌then◌else◌,
}
use epoller.Timers.Defs.{start_event, set_timer}
use epoller.Timers.Index.{keep}
use epoller.Engine.Defs.{
  Engine, Event, run_socket, call_owner, Handlers, find, do_add, do_remove, new_event, run, add_fd,
  set_time, set_timer_trigger, do_set_timer,
}
use epoller.Engine.Registry.{Registered, IsNew}
use epoller.Engine.Expiry.{Timed}
use epoller.Engine.Remove.{do_remove-Registered}
use epoller.Engine.Sound.{Sound}
use epoller.Engine.Reached.{Reached, start, adds, sets_timer, has_event, initial, Reached-Sound}
use epoller.Engine.Workers.{Pool, start}

-- Two sockets, of which one has queued an event, and a timer of each.
abbrev pub busy : Engine
busy = record {
  stopping = false;
  ev_counter = 2;
  ev_id = λ sock. if sock == 30 then 1 else 2;
  event_hash = (2, 40) ∷ (1, 30) ∷ [];
  event_queue = run_socket 30 1 ∷ [];
  sem = 1;
  timer_event = some (30, 7);
  timers = record {
    times_by_date =
        record { due = 10; owner = 30; id = 7 } ∷ record { due = 20; owner = 40; id = 8 } ∷ [];
    timers_by_owner =
        record { due = 20; owner = 40; id = 8 } ∷ record { due = 10; owner = 30; id = 7 } ∷ [];
  };
  controls = [];
}

pub busy-Registered : Registered busy
unfolding find
busy-Registered = record {
  once = λ id. ground arith;
  ids = λ id sock e. ground (arith, e);
  given = λ id sock e. ground (arith, e);
}

pub busy-Timed : Timed busy
unfolding start_event
busy-Timed = record {
  inv = record {
    sorted = ((omega arith, tt), (tt, tt));
    same = λ p. ground arith;
    once = λ owner id. ground arith;
  };
  armed = refl;
}

busy-find : find (busy.ev_id 30) busy.event_hash ≡ some 30
unfolding find
busy-find = refl

busy-IsNew : IsNew 50 busy
unfolding find
busy-IsNew = λ id e. ground (arith, e)

do_remove-Registered_example :
    (e' : Engine) × (do_remove 5 (some 30) busy ≡ some e')
    × Registered e'
    × Timed e'
    × (e'.timers ≡ keep (λ x. not (x.owner == 30)) busy.timers)
    × ((id : ℕ) → id ≢ 1 → find id e'.event_hash ≡ find id busy.event_hash)
    × ((h : Handlers) (events : ℕ) → run h 30 events e' ≡ e')
    × ((events : ℕ) → new_event 1 events e' ≡ e')
do_remove-Registered_example =
    do_remove-Registered 5 30 busy busy-Registered busy-Timed refl busy-find

-- A socket is added and sets a timer.
abbrev with_socket : Engine
with_socket = record initial {
  ev_counter = 1;
  ev_id = λ sock. if sock == 30 then 1 else 0;
  event_hash = (1, 30) ∷ [];
  controls = add_fd 30 true ∷ [];
}

abbrev pub with_timer : Engine
with_timer = record with_socket {
  timer_event = some (30, 7);
  timers = record {
    times_by_date = record { due = 110; owner = 30; id = 7 } ∷ [];
    timers_by_owner = record { due = 110; owner = 30; id = 7 } ∷ [];
  };
  controls = add_fd 30 true ∷ set_time 97 ∷ [];
}

with_socket-Reached : Reached with_socket
unfolding do_add find
with_socket-Reached = adds true 30 start (λ id e. ground (arith, e)) (omega arith) refl

pub with_timer-Reached : Reached with_timer
unfolding do_set_timer set_timer set_timer_trigger
with_timer-Reached =
    sets_timer {e = with_socket} (λ k. 10 + k) (some 30) 7 100 with_socket-Reached refl

Reached-Sound_example : Sound (new_event 1 4 with_timer)
Reached-Sound_example = Reached-Sound (new_event 1 4 with_timer) (has_event 1 4 with_timer-Reached)

-- Three events are queued for two workers, two of them signalled, and a worker let through.
abbrev event_a : Event
event_a = run_socket 30 1

abbrev event_b : Event
event_b = call_owner 40 8

abbrev event_c : Event
event_c = run_socket 40 4

abbrev ready : Pool
ready = record {
  event_queue = event_a ∷ event_b ∷ event_c ∷ [];
  sem = 1;
  pending = 1;
  idle = 1;
  awake = 1;
  holding = 0;
  running = 0;
  ended = 0;
  left = 0;
  thrown = 0;
  bare = false;
  queued = event_a ∷ event_b ∷ event_c ∷ [];
  taken = [];
  was_bare = false;
}

abbrev one_taken : Pool
one_taken = record ready {
  event_queue = event_b ∷ event_c ∷ [];
  awake = 0;
  holding = 1;
  taken = event_a ∷ [];
}
