-- ===== src/Ping/Tests.antt =====
-- Runs of PingTimer, and the theorem at them.
use epoller.Prelude.{ℕ, ◌+◌, ◌≡◌, refl, false, List, [], ◌∷◌, some, ◌>>=◌}
use epoller.Timers.Defs.{
  set_timer, remove_timer, remove_in, find_timer, erase_dates, erase_date, erase_timer, checked,
  emplace_date, retrigger, start_event, same_event, set_trigger,
}
use epoller.Timers.Defs as Timers
use epoller.Engine.Defs.{Engine, do_set_timer, handle_timer_expired, set_timer_trigger, set_time}
use epoller.Engine.Reached.{initial}
use epoller.Engine.Loop.{is_idle}
use epoller.Ping.{PingTimer, Ring, set, timedout, run_event, serve, ring, ring_all}
use epoller.Ping.Goes.{Waits, Idle, last_now, ring_all_goes_on}

abbrev pinger : PingTimer
pinger = record { self = 30; timer = 7 }

abbrev now : ℕ → ℕ
now k = 10 + k

-- A ring in time, and one that is served half a second late.
abbrev rings : List Ring
rings =
    record { expiry = λ k. 1_000_000_010 + k; now = λ k. 1_000_000_020 + k }
    ∷ record { expiry = λ k. 2_000_000_020 + k; now = λ k. 2_500_000_020 + k }
    ∷ []

abbrev rung : Engine
rung = record initial {
  timer_event = some (30, 7);
  timers = record {
    times_by_date = record { due = 3_500_000_020; owner = 30; id = 7 } ∷ [];
    timers_by_owner = record { due = 3_500_000_020; owner = 30; id = 7 } ∷ [];
  };
  controls = set_time 999_999_997 ∷ set_time 999_999_997 ∷ set_time 999_999_997 ∷ [];
}

rung_run : (set now pinger initial >>= ring_all pinger rings) ≡ some rung
unfolding set ring_all ring serve run_event timedout do_set_timer handle_timer_expired set_timer
    Timers.handle_timer_expired remove_timer remove_in find_timer erase_dates erase_date erase_timer
    checked emplace_date retrigger start_event same_event set_trigger set_timer_trigger
rung_run = refl

initial-Idle : Idle initial
initial-Idle = record { by_date = refl; by_owner = refl; queue = refl; quiet = refl }

ring_all_goes_on_example :
    (e1 : Engine) × (e2 : Engine) × (set now pinger initial ≡ some e1)
    × (ring_all pinger rings e1 ≡ some e2)
    × Waits pinger (last_now now rings) e2
    × ((active : ℕ) → is_idle active e2 ≡ false)
ring_all_goes_on_example = ring_all_goes_on pinger now rings initial initial-Idle
