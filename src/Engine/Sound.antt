-- ===== src/Engine/Sound.antt =====
-- src/engine.cpp: the map of events and the timers, through each operation of the engine.
use epoller.Prelude.{
  ℕ, ◌+◌, ◌<◌, ◌≡◌, sym, ap, ◌∙◌, inl, inr, Bool, true, Option, none, some, size_mod, arith,
  Bool-cases, Option-cases, >>=-eq-some, not, ◌==◌,
}
use epoller.Timers.Defs.{Timers, ArmCall, set_timer, cancel_timer, start_event, retrigger}
use epoller.Timers.Index.{keep}
use epoller.Timers.Cancel.{cancel_all_timers-Inv}
use epoller.Timers.Trigger.{
  sets, cancels, perform, perform-Good, Good, after_call, after_call-retrigger,
}
use epoller.Engine.Defs.{
  Engine, find, erase, trigger_if, do_add, do_remove, do_set_timer, do_cancel_timer,
  handle_timer_expired, new_event, set_timer_trigger,
}
use epoller.Engine.Registry.{Registered, IsNew, do_add-Registered}
use epoller.Engine.Expiry.{Timed, trigger_if-armed, trigger_if-Timed, handle_timer_expired-Timed}
use epoller.Engine.Remove.{erase-Registered}

-- Only the queue and the semaphore change.
same_map-Registered :
    (e e' : Engine)
    → Registered e
    → e'.event_hash ≡ e.event_hash
    → e'.ev_id ≡ e.ev_id
    → e'.ev_counter ≡ e.ev_counter
    → Registered e'
same_map-Registered e e' r hash ids counter = record {
  once = λ id. rw hash (r.once id);
  ids = λ id sock h. ap (λ f. f sock) ids ∙ r.ids id sock (ap (find id) (sym hash) ∙ h);
  given = λ id sock h. rw counter (r.given id sock (ap (find id) (sym hash) ∙ h));
}

-- What setTimer and cancelTimer leave, when the engine has made the call that they ask for.
with_call-Timed :
    (t : Timers) (call : Option ArmCall) (e : Engine)
    → Registered e
    → Good (t, after_call call e.timer_event)
    → Registered (trigger_if call (record e { timers = t }))
      × Timed (trigger_if call (record e { timers = t }))
with_call-Timed t call e r g =
    let (armed, timers, (hash, ids, counter, queue, stop)) =
      trigger_if-armed call (record e { timers = t }) in
    (
      same_map-Registered e (trigger_if call (record e { timers = t })) r hash ids counter,
      trigger_if-Timed call t e g,
    )

-- The invariant of the engine.
abbrev pub Sound : Engine → Type 0
Sound e = Registered e × Timed e

pub set-Sound :
    (now : ℕ → ℕ) (owner : Option ℕ) (timer timeout : ℕ) (e e' : Engine)
    → Sound e
    → do_set_timer now owner timer timeout e ≡ some e'
    → Sound e'
unfolding do_set_timer perform
set-Sound now owner timer timeout e e' (r, g) h =
    let (d, made, end) =
      >>=-eq-some (set_timer now owner timer timeout e.timers)
        (λ d. some (trigger_if d.call (record e { timers = d.timers }))) h in
    let good : Good (d.timers, after_call d.call e.timer_event) =
      perform-Good now (sets owner timer timeout) e.timers e.timer_event _ g (rw (perform, made)) in
    let end' : trigger_if d.call (record e { timers = d.timers }) ≡ e' = ground (arith, end) in
    rw (← end') (with_call-Timed d.timers d.call e r good)

pub cancel-Sound :
    (now : ℕ → ℕ) (owner : Option ℕ) (timer : ℕ) (e e' : Engine)
    → Sound e
    → do_cancel_timer now owner timer e ≡ some e'
    → Sound e'
unfolding do_cancel_timer perform
cancel-Sound now owner timer e e' (r, g) h =
    let (d, made, end) =
      >>=-eq-some (cancel_timer now owner timer e.timers)
        (λ d. some (trigger_if d.call (record e { timers = d.timers }))) h in
    let good : Good (d.timers, after_call d.call e.timer_event) =
      perform-Good now (cancels owner timer) e.timers e.timer_event _ g (rw (perform, made)) in
    let end' : trigger_if d.call (record e { timers = d.timers }) ≡ e' = ground (arith, end) in
    rw (← end') (with_call-Timed d.timers d.call e r good)

do_add-timers :
    (epoll_out : Bool) (what : ℕ) (e e' : Engine)
    → do_add epoll_out what e ≡ some e'
    → (e'.timers ≡ e.timers) × (e'.timer_event ≡ e.timer_event)
unfolding do_add
do_add-timers epoll_out what e e' h = (ground (arith, h), ground (arith, h))

do_add-stopping :
    (epoll_out : Bool) (what : ℕ) (e : Engine)
    → e.stopping ≡ true
    → do_add epoll_out what e ≡ some e
unfolding do_add
do_add-stopping epoll_out what e h = rw h

pub add-Sound :
    (epoll_out : Bool) (what : ℕ) (e e' : Engine)
    → Sound e
    → IsNew what e
    → e.ev_counter + 1 < size_mod
    → do_add epoll_out what e ≡ some e'
    → Sound e'
add-Sound epoll_out what e e' (r, g) new room h = elim (Bool-cases e.stopping) [
  | inl stop ↦
      let same : e ≡ e' = ground (arith, do_add-stopping epoll_out what e stop, h) in
      rw (← same) (r, g)
  | inr going ↦
      let (e'', made, r'', here, unused, others) =
        do_add-Registered epoll_out what e r going room new in
      let same : e'' ≡ e' = ground (arith, made, h) in
      let kept = do_add-timers epoll_out what e e' h in (rw (← same) r'', rw (kept.0, kept.1) g)
]

pub remove-Sound :
    (now : ℕ) (what : Option ℕ) (e e' : Engine)
    → Sound e
    → do_remove now what e ≡ some e'
    → Sound e'
unfolding do_remove
remove-Sound now none e e' s h = let same : e ≡ e' = ground (arith, h) in rw (← same) s
remove-Sound now (some sock) e e' (r, g) h = elim (Bool-cases e.stopping) [
  | inl stop ↦ let same : e ≡ e' = ground (arith, h, stop) in rw (← same) (r, g)
  | inr going ↦ elim (Option-cases (find (e.ev_id sock) e.event_hash)) [
    | inl absent ↦ absurd (ground (arith, h, going, absent))
    | inr (held, there) ↦
        let (eq, v) = cancel_all_timers-Inv e.timers g.inv now sock in
        let t = keep (λ x. not (x.owner == sock)) e.timers in
        let call = retrigger now (start_event e.timers.times_by_date) t.times_by_date in
        let base : Engine = record e { event_hash = erase (e.ev_id sock) e.event_hash } in
        let same : trigger_if call (record base { timers = t }) ≡ e' =
          ground (arith, h, going, there, eq) in
        let (armed, timers, (hash, ids, counter, queue, stop)) =
          trigger_if-armed call (record base { timers = t }) in
        rw (← same) (
          erase-Registered (e.ev_id sock) e (trigger_if call (record base { timers = t })) r hash
              ids counter,
          trigger_if-Timed call t base (record {
            inv = v;
            armed =
                rw g.armed
                  (after_call-retrigger now (start_event e.timers.times_by_date) t.times_by_date);
          }),
        )
  ]
]

expire-map :
    (now : ℕ → ℕ) (e e' : Engine)
    → handle_timer_expired now e ≡ some e'
    → (e'.event_hash ≡ e.event_hash) × (e'.ev_id ≡ e.ev_id) × (e'.ev_counter ≡ e.ev_counter)
unfolding handle_timer_expired set_timer_trigger
expire-map now e e' h = (ground (arith, h), ground (arith, h), ground (arith, h))

pub expire-Sound :
    (now : ℕ → ℕ) (e e' : Engine) → Sound e → handle_timer_expired now e ≡ some e' → Sound e'
expire-Sound now e e' (r, g) h =
    let (hash, ids, counter) = expire-map now e e' h in
    (
      same_map-Registered e e' r hash ids counter,
      elim (handle_timer_expired-Timed now e g) [
        | inl (empty, idle) ↦ let same : e ≡ e' = ground (arith, idle, h) in rw (← same) g
        | inr (first, rest, e'', split, made, queued, signalled, left, timed) ↦
            let same : e'' ≡ e' = ground (arith, made, h) in rw (← same) timed
      ],
    )

pub has_event-Sound : (ev_id events : ℕ) (e : Engine) → Sound e → Sound (new_event ev_id events e)
unfolding new_event
has_event-Sound ev_id events e s = elim (Option-cases (find ev_id e.event_hash)) [
  | inl absent ↦ rw (new_event, absent) s
  | inr (sock, there) ↦
      rw (new_event, there)
        (
          record { once = s.0.once; ids = s.0.ids; given = s.0.given },
          record { inv = s.1.inv; armed = s.1.armed },
        )
]
