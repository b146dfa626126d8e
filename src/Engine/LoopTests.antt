-- ===== src/Engine/LoopTests.antt =====
-- Runs of the loop of src/engine.cpp, and the theorems at them.
use epoller.Prelude.{
  ℕ, zero, suc, ◌+◌, ◌<◌, ◌≡◌, ◌⊎◌, refl, true, false, Bool, List, [], ◌∷◌, none, some, arith,
}
use epoller.Engine.Defs.{handle_timer_expired, run_socket, call_owner, do_cancel_timer, Engine}
use epoller.Engine.Sound.{Sound}
use epoller.Engine.Reached.{Reached-Sound}
use epoller.Engine.Loop.{
  Ready, dispatch, ready, again, Round, do_epoll, alive, stop_passes, stop_workers,
}
use epoller.Engine.Ends.{do_epoll_runs}
use epoller.Engine.Workforce.{signals, stop_workers_ends}
use epoller.Engine.Static.{start, start_ends}
use epoller.Engine.Early.{cancelled_expiry_early}
use epoller.Engine.Tests.{with_timer, with_timer-Reached, busy, busy-Registered, busy-Timed}

abbrev from_socket : Ready
from_socket = record { ev_id = 1; events = 4; now = λ k. 20 + k }

abbrev from_timer : Ready
from_timer = record { ev_id = 0; events = 1; now = λ k. 120 + k }

-- A call that is interrupted, one with two events while which are handled a signal comes, and one that
-- is not made.
abbrev rounds : List Round
rounds =
    record { wait = again; in_wait = false; in_work = false }
    ∷ record { wait = ready (from_socket ∷ from_timer ∷ []); in_wait = false; in_work = true }
    ∷ record { wait = ready (from_socket ∷ []); in_wait = false; in_work = false }
    ∷ []

do_epoll_runs_example :
    (e' : Engine) × (do_epoll rounds with_timer ≡ some e')
    × Sound e'
    × (dispatch (from_socket ∷ from_timer ∷ []) with_timer ≡ some (record e' { stopping = false }))
    × (e'.stopping ≡ true)
do_epoll_runs_example =
    do_epoll_runs rounds with_timer (Reached-Sound with_timer with_timer-Reached) refl
      (refl, (refl, (refl, tt)))

-- Three workers, of which one has exited at the first pass, and all at the second.
abbrev leaving : ℕ → List Bool
leaving zero = true ∷ false ∷ false ∷ []
leaving (suc k) = true ∷ true ∷ true ∷ []

stop_workers_ends_example :
    ((n : ℕ) × (n < 1024)
      × (alive (leaving n) ≡ 0)
      × (stop_workers leaving 1 5 ≡ some (5 + signals leaving 0 n)))
    ⊎ (((n : ℕ) → n < 1024 → 0 < alive (leaving n)) × (stop_workers leaving 1 5 ≡ none))
stop_workers_ends_example = stop_workers_ends leaving 1 5

leaving_run : stop_workers leaving 1 5 ≡ some 7
unfolding stop_workers stop_passes
leaving_run = refl

-- Without a processor there is no pass, and the assertion traps.
no_processors : stop_workers leaving 0 5 ≡ none
unfolding stop_workers stop_passes
no_processors = refl

-- The same rounds in the whole life of an engine.
start_ends_example :
    (e' : Engine) × (start rounds leaving 1 (some with_timer) ≡ some none)
    × Sound e'
    × (dispatch (from_socket ∷ from_timer ∷ []) with_timer ≡ some (record e' { stopping = false }))
start_ends_example =
    start_ends rounds leaving 1 1 with_timer (Reached-Sound with_timer with_timer-Reached) refl refl
      (refl, (refl, (refl, tt))) (omega arith) refl

-- The timer of socket 30 is cancelled at 6, and that of socket 40, which is due at 20, is run at 7.
cancelled_expiry_early_example :
    (e' : Engine) × (e'' : Engine) × (do_cancel_timer (λ k. 6) (some 30) 7 busy ≡ some e')
    × (handle_timer_expired (λ k. 7) e' ≡ some e'')
    × (e''.event_queue ≡ run_socket 30 1 ∷ call_owner 40 8 ∷ [])
    × (e''.timers.times_by_date ≡ [])
cancelled_expiry_early_example =
    cancelled_expiry_early (λ k. 6) (λ k. 7) busy (record { due = 10; owner = 30; id = 7 })
      (record { due = 20; owner = 40; id = 8 }) [] (busy-Registered, busy-Timed) refl
