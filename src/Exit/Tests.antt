-- ===== src/Exit/Tests.antt =====
-- Runs of ExitTimer, and the theorem at them.
use epoller.Prelude.{ℕ, ◌+◌, ◌*◌, ◌≡◌, ◌++◌, refl, List, [], ◌∷◌, some, arith}
use epoller.Timers.Defs.{
  set_timer, cancel_timer, remove_timer, remove_in, find_timer, erase_dates, erase_date,
  erase_timer, checked, emplace_date, retrigger, start_event, same_event, set_trigger,
}
use epoller.Engine.Defs.{
  Engine, call_owner, do_set_timer, do_cancel_timer, set_timer_trigger, set_time,
}
use epoller.Engine.Reached.{initial, start, Reached-Sound}
use epoller.Engine.Loop.{is_idle, is_empty}
use epoller.Exit.{set_timers, expire_all}
use epoller.Exit.Order.{last_four, entry, WithinSecond, set_timers_in_order}

abbrev now : ℕ → ℕ → ℕ
now k j = 100 + 10 * k + j

abbrev nows : List (ℕ → ℕ)
nows =
    (λ j. 2_000_000_200 + j)
    ∷ (λ j. 3_000_000_200 + j)
    ∷ (λ j. 4_000_000_200 + j)
    ∷ (λ j. 5_000_000_200 + j)
    ∷ []

abbrev set : Engine
set = record initial {
  timer_event = some (30, 2);
  timers = record {
    times_by_date =
        entry 30 2 2_000_000_150
        ∷ entry 30 3 3_000_000_130
        ∷ entry 30 4 4_000_000_120
        ∷ entry 30 0 5_000_000_110
        ∷ [];
    timers_by_owner =
        entry 30 2 2_000_000_150
        ∷ entry 30 3 3_000_000_130
        ∷ entry 30 4 4_000_000_120
        ∷ entry 30 0 5_000_000_110
        ∷ [];
  };
  controls =
      set_time 4_999_999_997
      ∷ set_time 3_999_999_997
      ∷ set_time 2_999_999_997
      ∷ set_time 999_999_997
      ∷ set_time 1_999_999_988
      ∷ [];
}

set_run : set_timers now 30 initial ≡ some set
unfolding set_timers do_set_timer do_cancel_timer set_timer cancel_timer remove_timer remove_in
    find_timer erase_dates erase_date erase_timer checked emplace_date retrigger start_event
    same_event set_trigger set_timer_trigger
set_run = refl

now-WithinSecond : WithinSecond 100 now
now-WithinSecond k h = omega arith

set_timers_in_order_example :
    (e1 : Engine) × (e2 : Engine) × (set_timers now 30 initial ≡ some e1)
    × (e1.timers.times_by_date ≡ last_four now 30)
    × (expire_all nows e1 ≡ some e2)
    × (e2.event_queue
        ≡ initial.event_queue
          ++ call_owner 30 2 ∷ call_owner 30 3 ∷ call_owner 30 4 ∷ call_owner 30 0 ∷ [])
    × (e2.timers.times_by_date ≡ [])
    × (is_idle 0 e2 ≡ is_empty initial.event_hash)
set_timers_in_order_example =
    set_timers_in_order now 100 30 nows initial (Reached-Sound initial start) refl now-WithinSecond
      refl
