-- ===== src/Engine/Work.antt =====
-- src/engine.cpp and src/event.cpp: what a worker does with an event.
use epoller.Prelude.{ℕ, ◌-◌, Bool, true, false, not, ◌||◌, List, [], ◌∷◌, if◌then◌else◌}
use epoller.Engine.Defs.{
  Engine, Event, run_socket, call_owner, Handlers, run, run_io, is_some, find, has, Control,
  control, modify_fd, epollin, epollout, epollerr, epollrdhup,
}
use epoller.Engine.Sound.{Sound}

-- The calls of events of the owners, by owner and event.
abbrev pub Functions : Type 0
Functions = ℕ → ℕ → Engine → Engine

-- Event::operator(). `alive` says which objects still exist.
unfoldable pub call_event : (ℕ → Bool) → Handlers → Functions → Event → Engine → Engine
unfolding run
call_event alive h functions (run_socket sock events) e =
    if alive sock then run h sock events e else e
call_event alive h functions (call_owner owner id) e =
    if alive owner then functions owner id e else e

-- The event that a worker takes from the queue, and an empty one where there is none.
unfoldable pub take_front : (ℕ → Bool) → Handlers → Functions → List Event → Engine → Engine
unfolding call_event
take_front alive h functions [] e = e
take_front alive h functions (event ∷ rest) e =
    call_event alive h functions event (record e { event_queue = rest })

-- A round of worker, once the semaphore lets it through.
unfoldable pub work : (ℕ → Bool) → Handlers → Functions → Engine → Engine
unfolding take_front
work alive h functions e = take_front alive h functions e.event_queue (record e { sem = e.sem - 1 })

-- What is asked of the handlers of sockets and of the functions of events: that they keep the invariant.
pub record KeepSound (h : Handlers) (functions : Functions) : Type 0 where
  pub writes : (sock : ℕ) (e : Engine) → Sound e → Sound (h.handle_write sock e)
  pub reads : (sock : ℕ) (e : Engine) → Sound e → Sound (h.handle_read sock e)
  pub errors : (sock : ℕ) (e : Engine) → Sound e → Sound (h.handle_error sock e)
  pub calls : (owner id : ℕ) (e : Engine) → Sound e → Sound (functions owner id e)

Sound-if : (b : Bool) (e e' : Engine) → Sound e → Sound e' → Sound (if b then e else e')
Sound-if true e e' s s' = s
Sound-if false e e' s s' = s'

-- The invariant is about neither the queue nor the calls of the kernel.
Sound-queue : (queue : List Event) (e : Engine) → Sound e → Sound (record e { event_queue = queue })
Sound-queue queue e (r, g) = (
  record { once = r.once; ids = r.ids; given = r.given },
  record { inv = g.inv; armed = g.armed },
)

Sound-sem : (sem : ℕ) (e : Engine) → Sound e → Sound (record e { sem = sem })
Sound-sem sem e (r, g) = (
  record { once = r.once; ids = r.ids; given = r.given },
  record { inv = g.inv; armed = g.armed },
)

Sound-control : (c : Control) (e : Engine) → Sound e → Sound (control c e)
Sound-control c e (r, g) = (
  record { once = r.once; ids = r.ids; given = r.given },
  record { inv = g.inv; armed = g.armed },
)

module _ (h : Handlers) (functions : Functions) (keep : KeepSound h functions) where
  run_io-Sound : (sock events : ℕ) (e : Engine) → Sound e → Sound (run_io h sock events e)
  unfolding run_io
  run_io-Sound sock events e s =
      let written = if has events epollout then h.handle_write sock e else e in
      let s' = Sound-if (has events epollout) (h.handle_write sock e) e (keep.writes sock e s) s in
      Sound-if (has events epollin) (h.handle_read sock written) written
        (keep.reads sock written s') s'

  run-Sound : (sock events : ℕ) (e : Engine) → Sound e → Sound (run h sock events e)
  unfolding run
  run-Sound sock events e s =
      let e' = run_io h sock events e in
      let s' = run_io-Sound sock events e s in
      let rearmed = control (modify_fd sock (h.waiting_out_event sock e')) e' in
      let kept = is_some (find (e'.ev_id sock) e'.event_hash) in
      let failed = has events epollrdhup || has events epollerr in
      Sound-if (not (is_some (find (e.ev_id sock) e.event_hash))) e
        (if failed then h.handle_error sock e' else if kept then rearmed else e') s
        (Sound-if failed (h.handle_error sock e') (if kept then rearmed else e')
          (keep.errors sock e' s')
          (Sound-if kept rearmed e'
            (Sound-control (modify_fd sock (h.waiting_out_event sock e')) e' s') s'))

  call_event-Sound :
      (alive : ℕ → Bool) (event : Event) (e : Engine)
      → Sound e
      → Sound (call_event alive h functions event e)
  unfolding call_event
  call_event-Sound alive (run_socket sock events) e s =
      Sound-if (alive sock) (run h sock events e) e (run-Sound sock events e s) s
  call_event-Sound alive (call_owner owner id) e s =
      Sound-if (alive owner) (functions owner id e) e (keep.calls owner id e s) s

  take_front-Sound :
      (alive : ℕ → Bool) (queue : List Event) (e : Engine)
      → Sound e
      → Sound (take_front alive h functions queue e)
  unfolding take_front
  take_front-Sound alive [] e s = s
  take_front-Sound alive (event ∷ rest) e s =
      call_event-Sound alive event (record e { event_queue = rest }) (Sound-queue rest e s)

  -- A worker keeps the engine's invariant, whatever the event is that it takes and whether its object
  -- still exists, where the handlers of sockets and the functions of events keep it.
  work-Sound : (alive : ℕ → Bool) (e : Engine) → Sound e → Sound (work alive h functions e)
  unfolding work
  work-Sound alive e s =
      take_front-Sound alive e.event_queue (record e { sem = e.sem - 1 })
        (Sound-sem (e.sem - 1) e s)
