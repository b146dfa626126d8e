-- ===== src/Engine/Loop.antt =====
-- src/engine.cpp: the thread that waits in epoll, how it is stopped, and the end of the engine.
use epoller.Prelude.{
  ℕ, zero, suc, ◌+◌, ◌*◌, Bool, true, false, not, ◌&&◌, List, [], ◌∷◌, ◌==◌, ltb, if◌then◌else◌,
  Option, none, some, ◌>>=◌, count_if,
}
use epoller.Timers.Defs.{clear}
use epoller.Engine.Defs.{Engine, new_event, handle_timer_expired}

-- What a read of the timer's descriptor gives: the number of times that it has run out, an interrupted
-- call, nothing yet, or another error.
pub data TimerRead : Type 0 where
  counted interrupted empty broken : TimerRead

-- The loop of clearTimer over the reads that the kernel answers: whether it ends, or traps.
unfoldable pub clear_timer : List TimerRead → Option Bool
clear_timer [] = some false
clear_timer (counted ∷ reads) = clear_timer reads
clear_timer (interrupted ∷ reads) = clear_timer reads
clear_timer (empty ∷ reads) = some true
clear_timer (broken ∷ reads) = none

-- An event that epoll_wait returns: its id and flags; `now` are the readings of the clock while it is
-- handled.
pub record Ready : Type 0 where
  pub ev_id : ℕ
  pub events : ℕ
  pub now : ℕ → ℕ

-- The loop of doEpoll over what epoll_wait has returned.
unfoldable pub dispatch : List Ready → Engine → Option Engine
dispatch [] e = some e
dispatch (r ∷ more) e =
    if r.ev_id == 0
    then (handle_timer_expired r.now e >>= dispatch more)
    else dispatch more (new_event r.ev_id r.events e)

-- doSignalHandler, on the thread of epoll or on another one.
unfoldable pub do_signal_handler : Bool → Engine → Engine
do_signal_handler on_epoll e =
    if not e.stopping && on_epoll then record e { stopping = true } else e

-- doStop: whether SIGUSR1 is sent to the thread of epoll.
unfoldable pub do_stop : Bool → Engine → Bool
do_stop on_epoll e = not e.stopping && not on_epoll

-- What a call of epoll_wait comes to: events, EINTR or EAGAIN, or another error.
pub data Wait : Type 0 where
  ready : List Ready → Wait
  again : Wait
  failed : Wait

-- A round of the loop of doEpoll: what the call comes to, whether a signal is handled during it, and
-- whether one is handled after it, while the events are.
pub record Round : Type 0 where
  pub wait : Wait
  pub in_wait : Bool
  pub in_work : Bool

abbrev pub if_signal : Bool → Engine → Engine
if_signal false e = e
if_signal true e = do_signal_handler true e

-- The rounds of doEpoll, until it ends or waits for more; `none` where pErrorThrow traps.
unfoldable pub do_epoll : List Round → Engine → Option Engine
unfolding dispatch do_signal_handler
do_epoll [] e = some e
do_epoll (r ∷ rounds) e = elim e.stopping [
  | true ↦ some e
  | false ↦
      let e' = if_signal r.in_wait e in
      elim e'.stopping [
        | true ↦ some e'
        | false ↦ elim r.wait [
          | ready events ↦ dispatch events e' >>= λ e''. do_epoll rounds (if_signal r.in_work e'')
          | again ↦ do_epoll rounds (if_signal r.in_work e')
          | failed ↦ none
        ]
      ]
]

-- startWorkers: how many are made.
unfoldable pub start_workers : ℕ → ℕ → ℕ
start_workers cpus min_workers_per_cpu = cpus * min_workers_per_cpu + 1

-- How many workers have not exited, of those that a pass looks at.
abbrev pub alive : List Bool → ℕ
alive = count_if not

-- The loop of stopWorkers: the passes that are left, which workers have exited when the pass `k` looks at
-- them, `waiting` and the count of the semaphore.
unfoldable pub stop_passes : (ℕ → List Bool) → ℕ → ℕ → Bool → ℕ → Bool × ℕ
stop_passes exited zero k waiting sem = (waiting, sem)
stop_passes exited (suc i) k false sem = (false, sem)
stop_passes exited (suc i) k true sem =
    stop_passes exited i (k + 1) (ltb 0 (alive (exited k))) (sem + alive (exited k))

-- stopWorkers, `none` where its assertion traps.
unfoldable pub stop_workers : (ℕ → List Bool) → ℕ → ℕ → Option ℕ
unfolding stop_passes
stop_workers exited cpus sem =
    let (waiting, sem') = stop_passes exited (1024 * cpus) 0 true sem in
    if waiting then none else some sem'

abbrev pub is_empty : List (ℕ × ℕ) → Bool
is_empty [] = true
is_empty (x ∷ xs) = false

abbrev pub is_none : Option (ℕ × ℕ) → Bool
is_none none = true
is_none (some event) = false

-- What a worker tests after each event, with the number of events that are being run: whether it stops the
-- engine and leaves.
unfoldable pub is_idle : ℕ → Engine → Bool
is_idle active e = is_empty e.event_hash && is_none e.timer_event && active == 0

-- The end of doInit, behind stopWorkers.
unfoldable pub tear_down : ℕ → Engine → Engine
unfolding clear
tear_down sem e = record e {
  timer_event = none;
  event_hash = [];
  event_queue = [];
  timers = clear e.timers;
  sem = sem;
}

-- doInit: `none` where an assertion traps. While doEpoll still waits, nothing has been torn down.
-- The workers that it starts run beside it and are not in it.
unfoldable pub do_init : List Round → (ℕ → List Bool) → ℕ → Engine → Option Engine
unfolding do_epoll stop_workers tear_down
do_init rounds exited cpus e =
    if is_empty e.event_hash && is_none e.timer_event
    then none
    else do_epoll rounds e >>= λ e'.
        if e'.stopping
        then (stop_workers exited cpus e'.sem >>= λ sem. some (tear_down sem e'))
        else some e'
