-- ===== src/Engine/Static.antt =====
-- src/engine.cpp: the static functions of Engine, in front of the one engine that init makes.
use epoller.Prelude.{
  ℕ, ◌+◌, ◌*◌, ◌≡◌, ◌<◌, ◌∙◌, inl, inr, Bool, true, false, ◌&&◌, List, if◌then◌else◌, Option, none,
  some, ◌>>=◌, arith, Bool-cases,
}
use epoller.Engine.Defs.{
  Engine, Event, do_add, do_remove, do_set_timer, do_cancel_timer, do_run_async, do_trigger_writes,
}
use epoller.Engine.Sound.{Sound}
use epoller.Engine.Reached.{initial}
use epoller.Engine.Loop.{
  Round, dispatch, do_stop, do_init, tear_down, is_empty, is_none, alive, do_epoll, stop_workers,
}
use epoller.Engine.Ends.{NoFailure, handled, stops, do_epoll_runs}
use epoller.Engine.Workforce.{signals, stop_workers_ends}

-- theEngine, `none` for a null pointer.
abbrev pub TheEngine : Type 0
TheEngine = Option Engine

-- How a call is passed on, `none` for the exception that init has not been called, and where the call traps.
unfoldable pub pass_on : (Engine → Option Engine) → TheEngine → Option TheEngine
pass_on call none = none
pass_on call (some e) = call e >>= λ e'. some (some e')

unfoldable pub add : Bool → ℕ → TheEngine → Option TheEngine
unfolding pass_on
add epoll_out what = pass_on (do_add epoll_out what)

unfoldable pub remove : ℕ → Option ℕ → TheEngine → Option TheEngine
unfolding pass_on
remove now what = pass_on (do_remove now what)

unfoldable pub set_timer : (ℕ → ℕ) → Option ℕ → ℕ → ℕ → TheEngine → Option TheEngine
unfolding pass_on
set_timer now owner timer timeout = pass_on (do_set_timer now owner timer timeout)

unfoldable pub cancel_timer : (ℕ → ℕ) → Option ℕ → ℕ → TheEngine → Option TheEngine
unfolding pass_on
cancel_timer now owner timer = pass_on (do_cancel_timer now owner timer)

unfoldable pub run_async : Event → TheEngine → Option TheEngine
unfolding pass_on
run_async event = pass_on (λ e. some (do_run_async event e))

unfoldable pub trigger_writes : ℕ → TheEngine → Option TheEngine
unfolding pass_on
trigger_writes what = pass_on (λ e. some (do_trigger_writes what e))

-- init.
unfoldable pub init : TheEngine → TheEngine
init none = some initial
init (some e) = some e

-- stop: whether a signal is sent.
unfoldable pub stop : Bool → TheEngine → Bool
stop on_epoll none = false
stop on_epoll (some e) = do_stop on_epoll e

-- start: `none` where an assertion traps, and without an engine, through whose null pointer it calls. While
-- doInit has not returned there still is an engine.
unfoldable pub start : List Round → (ℕ → List Bool) → ℕ → TheEngine → Option TheEngine
start rounds exited cpus none = none
start rounds exited cpus (some e) =
    do_init rounds exited cpus e >>= λ e'. some (if e'.stopping then none else some e')

-- The workers have left at some pass, and stopWorkers ends.
stop_workers_left :
    (exited : ℕ → List Bool) (cpus sem n : ℕ)
    → n < 1024 * cpus
    → alive (exited n) ≡ 0
    → (sem' : ℕ) × (stop_workers exited cpus sem ≡ some sem')
stop_workers_left exited cpus sem n before gone = elim (stop_workers_ends exited cpus sem) [
  | inl (m, h, all_gone, end) ↦ (sem + signals exited 0 m, end)
  | inr (left, trap) ↦ absurd (omega (arith, left n before, gone))
]

do_init_stopped :
    (rounds : List Round) (exited : ℕ → List Bool) (cpus sem : ℕ) (e e' : Engine)
    → (is_empty e.event_hash && is_none e.timer_event) ≡ false
    → do_epoll rounds e ≡ some e'
    → e'.stopping ≡ true
    → stop_workers exited cpus e'.sem ≡ some sem
    → do_init rounds exited cpus e ≡ some (tear_down sem e')
unfolding do_init
do_init_stopped rounds exited cpus sem e e' busy runs stopped left =
    ground (arith, busy, runs, stopped, left)

do_init_going :
    (rounds : List Round) (exited : ℕ → List Bool) (cpus : ℕ) (e e' : Engine)
    → (is_empty e.event_hash && is_none e.timer_event) ≡ false
    → do_epoll rounds e ≡ some e'
    → e'.stopping ≡ false
    → do_init rounds exited cpus e ≡ some e'
unfolding do_init
do_init_going rounds exited cpus e e' busy runs going = ground (arith, busy, runs, going)

-- start of an engine that has a socket or a timer traps nowhere, where no call of epoll_wait fails and
-- the workers have exited at one of the passes over them. Once a signal has come it returns and
-- there is no engine any more; while none has come there is the engine, in its invariant, that has
-- handled all that the rounds handed over.
pub start_ends :
    (rounds : List Round) (exited : ℕ → List Bool) (cpus n : ℕ) (e : Engine)
    → Sound e
    → e.stopping ≡ false
    → (is_empty e.event_hash && is_none e.timer_event) ≡ false
    → NoFailure rounds
    → n < 1024 * cpus
    → alive (exited n) ≡ 0
    → (e' : Engine) × (start rounds exited cpus (some e)
        ≡ some (if stops rounds then none else some e'))
      × Sound e'
      × (dispatch (handled rounds) e ≡ some (record e' { stopping = false }))
unfolding start tear_down
start_ends rounds exited cpus n e s going busy ok before gone =
    let (e', runs, s', all, stop) = do_epoll_runs rounds e s going ok in
    elim (Bool-cases (stops rounds)) [
      | inl signal ↦
          let (sem, left) = stop_workers_left exited cpus e'.sem n before gone in
          let end = do_init_stopped rounds exited cpus sem e e' busy runs (stop ∙ signal) left in
          (e', ground (arith, end, signal, stop), s', all)
      | inr none_came ↦
          let end = do_init_going rounds exited cpus e e' busy runs (stop ∙ none_came) in
          (e', ground (arith, end, none_came, stop), s', all)
    ]
