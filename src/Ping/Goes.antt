-- ===== src/Ping/Goes.antt =====
-- src/main.cpp, src/engine.cpp and src/timers.cpp: the pings of PingTimer.
use epoller.Prelude.{ℕ, ◌+◌, ◌-◌, ◌≡◌, refl, List, [], ◌∷◌, none, some, false, arith, max, ◌++◌}
use epoller.Query.Message.{one_sec_in_ns}
use epoller.Timers.Defs.{
  Timer, Timers, set_timer, remove_timer, remove_in, find_timer, erase_dates, erase_date,
  erase_timer, checked, emplace_date, retrigger, start_event, same_event, set_trigger,
}
use epoller.Timers.Defs as Timers
use epoller.Engine.Defs.{
  Engine, call_owner, do_set_timer, handle_timer_expired, set_timer_trigger, set_time, Control,
}
use epoller.Engine.Loop.{is_idle}
use epoller.Ping.{PingTimer, Ring, set, timedout, run_event, serve, ring, ring_all}

abbrev pub only : PingTimer → ℕ → List Timer
only p due = record { due = due; owner = p.self; id = p.timer } ∷ []

-- The engine waits for the one timer, due a second after it was set, and the kernel has last been asked
-- for the time until then; no event is queued, and no worker is to be woken. `now` are the readings of the
-- clock with which the timer was set.
pub record Waits (p : PingTimer) (now : ℕ → ℕ) (e : Engine) : Type 0 where
  pub by_date : e.timers.times_by_date ≡ only p (now 0 + one_sec_in_ns)
  pub by_owner : e.timers.timers_by_owner ≡ only p (now 0 + one_sec_in_ns)
  pub armed : e.timer_event ≡ some (p.self, p.timer)
  pub queue : e.event_queue ≡ []
  pub quiet : e.sem ≡ 0
  pub asked :
      (earlier : List Control) × (e.controls
        ≡ earlier ++ set_time (max 1 (now 0 + one_sec_in_ns - now 3)) ∷ [])

-- No timer is set and nothing is queued.
pub record Idle (e : Engine) : Type 0 where
  pub by_date : e.timers.times_by_date ≡ []
  pub by_owner : e.timers.timers_by_owner ≡ []
  pub queue : e.event_queue ≡ []
  pub quiet : e.sem ≡ 0

-- The timer is set while none is set: it is the only one, whatever the clock says, and it is armed.
do_set_timer-Waits :
    (now : ℕ → ℕ) (p : PingTimer) (e : Engine)
    → Idle e
    → (e' : Engine) × (do_set_timer now (some p.self) p.timer one_sec_in_ns e ≡ some e')
      × Waits p now e'
unfolding do_set_timer set_timer remove_timer remove_in checked emplace_date retrigger start_event
    same_event set_trigger set_timer_trigger
do_set_timer-Waits now p e idle =
    let due = now 0 + one_sec_in_ns in
    let e' : Engine = record e {
      timers = record { times_by_date = only p due; timers_by_owner = only p due };
      timer_event = some (p.self, p.timer);
      controls = e.controls ++ set_time (max 1 (due - now 3)) ∷ [];
    } in
    (
      e',
      ground (arith, idle.by_date, idle.by_owner),
      record {
        by_date = refl;
        by_owner = refl;
        armed = refl;
        queue = idle.queue;
        quiet = idle.quiet;
        asked = (e.controls, refl);
      },
    )

-- The kernel's timer runs out: the event is queued, one worker is to be woken, and no timer is left.
expires-Waits :
    (expiry now : ℕ → ℕ) (p : PingTimer) (e : Engine)
    → Waits p now e
    → (e' : Engine) × (handle_timer_expired expiry e ≡ some e')
      × (e'.event_queue ≡ call_owner p.self p.timer ∷ [])
      × Idle (record e' { event_queue = []; sem = e'.sem - 1 })
unfolding handle_timer_expired Timers.handle_timer_expired remove_timer remove_in find_timer
    erase_dates erase_date erase_timer checked set_trigger set_timer_trigger
expires-Waits expiry now p e w =
    let e' : Engine = record e {
      timers = record { times_by_date = []; timers_by_owner = [] };
      timer_event = none;
      event_queue = call_owner p.self p.timer ∷ [];
      sem = 1;
    } in
    (
      e',
      ground (arith, w.by_date, w.by_owner, w.armed, w.queue, w.quiet),
      refl,
      record { by_date = refl; by_owner = refl; queue = refl; quiet = refl },
    )

ring-Waits :
    (r : Ring) (now : ℕ → ℕ) (p : PingTimer) (e : Engine)
    → Waits p now e
    → (e' : Engine) × (ring p r e ≡ some e') × Waits p r.now e'
unfolding ring serve run_event timedout
ring-Waits r now p e w =
    let (e1, expired, queued, idle) = expires-Waits r.expiry now p e w in
    let (e2, pinged, w') =
      do_set_timer-Waits r.now p (record e1 { event_queue = []; sem = e1.sem - 1 }) idle in
    (e2, ground (arith, expired, queued, pinged), w')

-- The readings of the clock with which the timer was set last.
abbrev pub last_now : (ℕ → ℕ) → List Ring → ℕ → ℕ
last_now now [] = now
last_now now (r ∷ rings) = last_now r.now rings

ring_all-Waits :
    (rings : List Ring) (now : ℕ → ℕ) (p : PingTimer) (e : Engine)
    → Waits p now e
    → (e' : Engine) × (ring_all p rings e ≡ some e') × Waits p (last_now now rings) e'
unfolding ring_all
ring_all-Waits [] now p e w = (e, refl, w)
ring_all-Waits (r ∷ rings) now p e w =
    let (e1, first, w1) = ring-Waits r now p e w in
    let (e2, later, w2) = ring_all-Waits rings r.now p e1 w1 in
    (e2, ground (arith, first, later), w2)

-- Where a PingTimer is set in an engine that has no timer and no event, and then the kernel's timer runs out and
-- a worker serves the event, any number of times and whatever the clock says, no assertion traps, and each
-- time the engine ends up waiting again for that one timer, due a second after the last reading, with the
-- kernel asked for the time until then, and the worker does not stop the engine.
pub ring_all_goes_on :
    (p : PingTimer) (now : ℕ → ℕ) (rings : List Ring) (e : Engine)
    → Idle e
    → (e1 : Engine) × (e2 : Engine) × (set now p e ≡ some e1)
      × (ring_all p rings e1 ≡ some e2)
      × Waits p (last_now now rings) e2
      × ((active : ℕ) → is_idle active e2 ≡ false)
unfolding set is_idle
ring_all_goes_on p now rings e idle =
    let (e1, made, w) = do_set_timer-Waits now p e idle in
    let (e2, rung, w') = ring_all-Waits rings now p e1 w in
    (e1, e2, made, rung, w', λ active. ground (arith, w'.armed))
