-- ===== src/Timers/Tests.antt =====
-- Runs of src/timers.cpp on two timers, and the theorems at them.
use epoller.Prelude.{ℕ, ◌+◌, ◌≡◌, ◌<◌, ◌↔◌, refl, List, [], ◌∷◌, Option, none, some, arith}
use epoller.Timers.Defs.{
  Timer, Timers, Done, set_timer, cancel_timer, handle_timer_expired, retrigger, start_event,
  set_trigger, remove_timer, emplace_date, checked, erase_dates, erase_timer, find_timer, remove_in,
  same_event, erase_date,
}
use epoller.Timers.Index.{Inv}
use epoller.Timers.Set.{set_timer_traps_iff, clashes}
use epoller.Timers.Trigger.{
  Call, sets, cancels, expires, perform_all, initial, perform_all-initial, Good, perform,
  after_call,
}
use epoller.Timers.Refines.{perform_all-refines}
use epoller.Timers.Schedule.{Replays, ArmedFor, schedule}
use epoller.Timers.Stale.{set_timer_stale}

abbrev first_timer : Timer
first_timer = record { due = 10; owner = 1; id = 7 }

abbrev second_timer : Timer
second_timer = record { due = 20; owner = 2; id = 8 }

abbrev two_timers : Timers
two_timers = record {
  times_by_date = first_timer ∷ second_timer ∷ [];
  timers_by_owner = second_timer ∷ first_timer ∷ [];
}

-- A clock that shows 5 and goes on by one with each reading.
abbrev clock : ℕ → ℕ
clock k = 5 + k

two_timers-Inv : Inv two_timers
two_timers-Inv = record {
  sorted = ((omega arith, tt), (tt, tt));
  same = λ p. ground arith;
  once = λ owner id. ground arith;
}

-- A third timer for the nanosecond of the second one.
set_timer_traps_iff_example :
    (set_timer clock (some 3) 9 15 two_timers ≡ none) ↔ (0 < clashes clock 3 9 15 two_timers)
set_timer_traps_iff_example = set_timer_traps_iff clock 3 9 15 two_timers two_timers-Inv

set_timer_traps : set_timer clock (some 3) 9 15 two_timers ≡ none
unfolding set_timer remove_timer emplace_date checked erase_dates erase_timer find_timer remove_in
    erase_date
set_timer_traps = refl

set_timer_stale_example :
    (d : Done) × (set_timer clock (some 1) 7 11 two_timers ≡ some d)
    × (d.timers.times_by_date ≡ record first_timer { due = 16 } ∷ second_timer ∷ [])
    × (d.call ≡ none)
set_timer_stale_example =
    set_timer_stale clock first_timer (second_timer ∷ []) 11 two_timers two_timers-Inv refl
      (omega arith, tt)

-- Two timers are set, the first is set again, one runs out and the other is cancelled.
abbrev history : List ((ℕ → ℕ) × Call)
history =
    (clock, sets (some 1) 7 5)
    ∷ (clock, sets (some 2) 8 15)
    ∷ (clock, sets (some 1) 7 25)
    ∷ (clock, expires)
    ∷ (clock, cancels (some 1) 7)
    ∷ (clock, cancels none 3)
    ∷ (clock, sets (some 2) 8 40)
    ∷ []

abbrev after_history : Timers × Option (ℕ × ℕ)
after_history = (
  record {
    times_by_date = record { due = 45; owner = 2; id = 8 } ∷ [];
    timers_by_owner = record { due = 45; owner = 2; id = 8 } ∷ [];
  },
  some (2, 8),
)

perform_all-history : perform_all history initial ≡ some after_history
unfolding perform_all set_timer cancel_timer handle_timer_expired remove_timer retrigger start_event
    set_trigger emplace_date checked erase_dates erase_timer find_timer remove_in same_event perform
    after_call erase_date
perform_all-history = refl

perform_all-initial_example : Good after_history
perform_all-initial_example = perform_all-initial history after_history perform_all-history

perform_all-refines_example :
    Replays history (λ o i. none) (schedule after_history.0)
    × ArmedFor (schedule after_history.0) after_history.1
perform_all-refines_example = perform_all-refines history after_history perform_all-history
