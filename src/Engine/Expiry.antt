-- ===== src/Engine/Expiry.antt =====
-- src/engine.cpp: the engine's timers, and the event that is armed.
use epoller.Prelude.{
  ℕ, ◌+◌, ◌≡◌, ◌⊎◌, refl, sym, ap, ◌∙◌, inl, inr, List, [], ◌∷◌, ◌++◌, Option, none, some, arith,
  List-cases,
}
use epoller.Timers.Defs.{Timer, Timers, ArmCall, arm, disarm, set_trigger, start_event}
use epoller.Timers.Cancel.{handle_timer_expired-Inv}
use epoller.Timers.Trigger.{Good, after_call}
use epoller.Engine.Defs.{
  Engine, call_owner, push_event, signal, set_timer_trigger, trigger_if, handle_timer_expired,
}

-- The engine has armed the event of its earliest timer.
abbrev pub Timed : Engine → Type 0
Timed e = Good (e.timers, e.timer_event)

-- Everything but the timers, what is armed, and the calls of the kernel.
abbrev pub SameBut : Engine → Engine → Type 0
SameBut e e' =
    (e'.event_hash ≡ e.event_hash)
    × (e'.ev_id ≡ e.ev_id)
    × (e'.ev_counter ≡ e.ev_counter)
    × (e'.event_queue ≡ e.event_queue)
    × (e'.stopping ≡ e.stopping)

pub trigger_if-armed :
    (call : Option ArmCall) (e : Engine)
    → ((trigger_if call e).timer_event ≡ after_call call e.timer_event)
      × ((trigger_if call e).timers ≡ e.timers)
      × SameBut e (trigger_if call e)
unfolding set_timer_trigger after_call
trigger_if-armed none e = (refl, refl, (refl, refl, refl, refl, refl))
trigger_if-armed (some disarm) e = (refl, refl, (refl, refl, refl, refl, refl))
trigger_if-armed (some (arm owner id when)) e = (refl, refl, (refl, refl, refl, refl, refl))

pub trigger_if-Timed :
    (call : Option ArmCall) (t : Timers) (e : Engine)
    → Good (t, after_call call e.timer_event)
    → Timed (trigger_if call (record e { timers = t }))
trigger_if-Timed call t e g =
    let kept = trigger_if-armed call (record e { timers = t }) in rw (kept.0, kept.1) g

set_trigger-armed :
    (now : ℕ) (rest : List Timer) (e : Engine)
    → let e' = set_timer_trigger (set_trigger now rest) e in
      (e'.timer_event ≡ start_event rest) × (e'.timers ≡ e.timers) × (e'.sem ≡ e.sem) × SameBut e e'
unfolding set_timer_trigger set_trigger start_event
set_trigger-armed now [] e = (refl, refl, refl, (refl, refl, refl, refl, refl))
set_trigger-armed now (t ∷ ts) e = (refl, refl, refl, (refl, refl, refl, refl, refl))

-- The engine whose earliest timer has run out.
abbrev expired : ℕ → Timer → List Timer → Timers → Engine → Engine
expired now first rest t e = signal (
    set_timer_trigger (set_trigger now rest)
      (record (push_event (call_owner first.owner first.id) e) { timer_event = none; timers = t }))

-- When the timer runs out, handleTimerExpired queues the event of the earliest timer, takes that timer
-- away, and arms for the next one; without a timer it does nothing. No assertion traps.
pub handle_timer_expired-Timed :
    (now : ℕ → ℕ) (e : Engine)
    → Timed e
    → ((e.timers.times_by_date ≡ []) × (handle_timer_expired now e ≡ some e))
      ⊎ ((first : Timer) × (rest : List Timer) × (e' : Engine) × (e.timers.times_by_date
            ≡ first ∷ rest)
          × (handle_timer_expired now e ≡ some e')
          × (e'.event_queue ≡ e.event_queue ++ call_owner first.owner first.id ∷ [])
          × (e'.sem ≡ e.sem + 1)
          × (e'.timers.times_by_date ≡ rest)
          × Timed e')
unfolding handle_timer_expired start_event
handle_timer_expired-Timed now e g = elim (List-cases e.timers.times_by_date) [
  | inl none_set ↦ inl (none_set, ground (arith, g.armed))
  | inr (first, rest, split) ↦
      let (t', eq, v, left) = handle_timer_expired-Inv e.timers g.inv now first rest split in
      let before : Engine = record (push_event (call_owner first.owner first.id) e) {
        timer_event = none;
        timers = t';
      } in
      let kept = set_trigger-armed (now 1) rest before in
      let armed : e.timer_event ≡ some (first.owner, first.id) = ground (arith, g.armed) in
      let same : before.timers ≡ (expired (now 1) first rest t' e).timers = sym kept.1 in
      inr (
        first,
        rest,
        expired (now 1) first rest t' e,
        split,
        ground (arith, armed, eq),
        kept.3.3,
        ground (arith, kept.2),
        ap (λ (x : Timers). x.times_by_date) kept.1 ∙ left,
        record {
          inv = rw kept.1 v;
          armed = kept.0 ∙ ap start_event (sym left ∙ ap (λ (x : Timers). x.times_by_date) same);
        },
      )
]
