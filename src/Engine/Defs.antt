-- ===== src/Engine/Defs.antt =====
-- src/engine.cpp: the state of Engine and its operations. Each takes the locks that it needs, so the
-- operations are given whole; a failed assertion gives `none`. The static functions that pass a call
-- on to the one engine are the calls themselves, once Engine::init() has made it.
use Prim.Native.Nat.{bit_and}
use epoller.Prelude.{
  ℕ, ◌+◌, ◌%◌, Bool, true, false, not, ◌||◌, List, [], ◌∷◌, ◌++◌, ◌==◌, if◌then◌else◌, Option, none,
  some, size_mod, ◌>>=◌,
}
use epoller.Timers.Defs.{
  Timers, ArmCall, arm, disarm, Done, set_timer, cancel_timer, cancel_all_timers,
}
use epoller.Timers.Defs as Timers

abbrev pub epollin : ℕ
epollin = 1

abbrev pub epollout : ℕ
epollout = 4

abbrev pub epollerr : ℕ
epollerr = 8

abbrev pub epollrdhup : ℕ
epollrdhup = 0x2000

-- An Event, by what it runs: Engine::run of a socket, or the function of a Runnable's event.
pub data Event : Type 0 where
  run_socket call_owner : ℕ → ℕ → Event

-- What the engine asks of the kernel: a socket is added or rearmed, with or without EPOLLOUT among the
-- events; the timer is set to run out after some nanoseconds.
pub data Control : Type 0 where
  add_fd modify_fd : ℕ → Bool → Control
  set_time : ℕ → Control

-- `ev_id` is the field of that name of each socket. `event_hash` is a map from ids to sockets, and `sem`
-- the count of the semaphore.
pub record Engine : Type 0 where
  pub stopping : Bool
  pub ev_counter : ℕ
  pub ev_id : ℕ → ℕ
  pub event_hash : List (ℕ × ℕ)
  pub event_queue : List Event
  pub sem : ℕ
  pub timer_event : Option (ℕ × ℕ)
  pub timers : Timers
  pub controls : List Control

abbrev pub control : Control → Engine → Engine
control c e = record e { controls = e.controls ++ c ∷ [] }

-- eventHash.find.
unfoldable pub find : ℕ → List (ℕ × ℕ) → Option ℕ
find id [] = none
find id ((k, sock) ∷ hash) = if k == id then some sock else find id hash

abbrev pub is_some : Option ℕ → Bool
is_some none = false
is_some (some sock) = true

abbrev pub signal : Engine → Engine
signal e = record e { sem = e.sem + 1 }

abbrev pub push_event : Event → Engine → Engine
push_event v e = record e { event_queue = e.event_queue ++ v ∷ [] }

-- newEvent.
unfoldable pub new_event : ℕ → ℕ → Engine → Engine
new_event ev_id events e = elim (find ev_id e.event_hash) [
  | none ↦ e
  | some sock ↦ signal (push_event (run_socket sock events) e)
]

-- doTriggerWrites.
unfoldable pub do_trigger_writes : ℕ → Engine → Engine
unfolding new_event
do_trigger_writes what e = new_event (e.ev_id what) epollout e

-- doRunAsync.
unfoldable pub do_run_async : Event → Engine → Engine
do_run_async event e = signal (push_event event e)

-- setTimerTrigger.
unfoldable pub set_timer_trigger : ArmCall → Engine → Engine
set_timer_trigger disarm e = record e { timer_event = none }
set_timer_trigger (arm owner id when) e =
    control (set_time when) (record e { timer_event = some (owner, id) })

abbrev pub trigger_if : Option ArmCall → Engine → Engine
trigger_if none e = e
trigger_if (some call) e = set_timer_trigger call e

abbrev with_done : Done → Engine → Engine
with_done d e = trigger_if d.call (record e { timers = d.timers })

-- doSetTimer and doCancelTimer.
unfoldable pub do_set_timer : (ℕ → ℕ) → Option ℕ → ℕ → ℕ → Engine → Option Engine
do_set_timer now owner timer timeout e = do
  d ← set_timer now owner timer timeout e.timers
  some (with_done d e)

unfoldable pub do_cancel_timer : (ℕ → ℕ) → Option ℕ → ℕ → Engine → Option Engine
do_cancel_timer now owner timer e = do
  d ← cancel_timer now owner timer e.timers
  some (with_done d e)

-- handleTimerExpired.
unfoldable pub handle_timer_expired : (ℕ → ℕ) → Engine → Option Engine
handle_timer_expired now e = elim e.timer_event [
  | none ↦ some e
  | some (owner, id) ↦ do
    (t, call) ← Timers.handle_timer_expired now e.timers
    some (
        signal (
          set_timer_trigger call
            (record (push_event (call_owner owner id) e) { timer_event = none; timers = t })))
]

-- doAdd. `epoll_out` is what the socket's waitingOutEvent has answered.
unfoldable pub do_add : Bool → ℕ → Engine → Option Engine
do_add epoll_out what e =
    let id = (e.ev_counter + 1) % size_mod in
    if e.stopping
    then some e
    else if is_some (find id e.event_hash)
    then none
    else some (
        control (add_fd what epoll_out) (record e {
          ev_counter = id;
          ev_id = λ sock. if sock == what then id else e.ev_id sock;
          event_hash = (id, what) ∷ e.event_hash;
        }))

unfoldable pub erase : ℕ → List (ℕ × ℕ) → List (ℕ × ℕ)
erase id [] = []
erase id ((k, sock) ∷ hash) = if k == id then hash else (k, sock) ∷ erase id hash

-- doRemove. The socket is `none` if it is gone.
unfoldable pub do_remove : ℕ → Option ℕ → Engine → Option Engine
do_remove now none e = some e
do_remove now (some sock) e =
    if e.stopping
    then some e
    else if is_some (find (e.ev_id sock) e.event_hash)
    then (do
      (t, call) ← cancel_all_timers now sock e.timers
      some (
          trigger_if call
            (record e { event_hash = erase (e.ev_id sock) e.event_hash; timers = t })))
    else none

-- The virtual functions of a socket that the engine calls.
pub record Handlers : Type 0 where
  pub handle_write : ℕ → Engine → Engine
  pub handle_read : ℕ → Engine → Engine
  pub handle_error : ℕ → Engine → Engine
  pub waiting_out_event : ℕ → Engine → Bool

abbrev pub has : ℕ → ℕ → Bool
has events flag = not (bit_and events flag == 0)

-- The two handlers that run calls first.
unfoldable pub run_io : Handlers → ℕ → ℕ → Engine → Engine
run_io h sock events e =
    let written = if has events epollout then h.handle_write sock e else e in
    if has events epollin then h.handle_read sock written else written

-- run.
unfoldable pub run : Handlers → ℕ → ℕ → Engine → Engine
unfolding run_io
run h sock events e =
    if not (is_some (find (e.ev_id sock) e.event_hash))
    then e
    else let e' = run_io h sock events e in
      if has events epollrdhup || has events epollerr
      then h.handle_error sock e'
      else if is_some (find (e'.ev_id sock) e'.event_hash)
      then control (modify_fd sock (h.waiting_out_event sock e')) e'
      else e'
