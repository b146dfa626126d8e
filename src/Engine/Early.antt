-- ===== src/Engine/Early.antt =====
-- src/engine.cpp: cancelTimer between the moment at which the kernel's timer runs out and handleTimerExpired.
use epoller.Prelude.{ℕ, ◌≡◌, ap, ◌∙◌, inl, inr, List, [], ◌∷◌, ◌++◌, some, arith}
use epoller.Timers.Defs.{Timer, Timers}
use epoller.Timers.Cancel.{cancel_timer-Inv, keep_rest}
use epoller.Engine.Defs.{Engine, call_owner, trigger_if, do_cancel_timer, handle_timer_expired}
use epoller.Engine.Expiry.{trigger_if-armed, handle_timer_expired-Timed}
use epoller.Engine.Sound.{Sound, cancel-Sound}

-- The engine without its earliest timer.
cancel_first :
    (now : ℕ → ℕ) (e : Engine) (first : Timer) (rest : List Timer)
    → Sound e
    → e.timers.times_by_date ≡ first ∷ rest
    → (e' : Engine) × (do_cancel_timer now (some first.owner) first.id e ≡ some e')
      × Sound e'
      × (e'.timers.times_by_date ≡ rest)
      × (e'.event_queue ≡ e.event_queue)
unfolding do_cancel_timer
cancel_first now e first rest s split =
    let inv = s.1.inv in
    let (d, made, v, kept, due, unset, call) =
      cancel_timer-Inv e.timers inv first.owner first.id now in
    let e' : Engine = trigger_if d.call (record e { timers = d.timers }) in
    let end : do_cancel_timer now (some first.owner) first.id e ≡ some e' = ground (arith, made) in
    let (armed, timers, (hash, ids, counter, queue, stop)) =
      trigger_if-armed d.call (record e { timers = d.timers }) in
    (
      e',
      end,
      cancel-Sound now (some first.owner) first.id e e' s end,
      ap (λ (t : Timers). t.times_by_date) (timers ∙ kept)
          ∙ keep_rest e.timers inv first rest split,
      queue,
    )

-- Where the earliest timer is cancelled after it has run out in the kernel, and before
-- handleTimerExpired, the event of the next timer is queued, however long that timer still has to run,
-- and the timer is gone.
pub cancelled_expiry_early :
    (now now' : ℕ → ℕ) (e : Engine) (first second : Timer) (rest : List Timer)
    → Sound e
    → e.timers.times_by_date ≡ first ∷ second ∷ rest
    → (e' : Engine) × (e'' : Engine) × (do_cancel_timer now (some first.owner) first.id e ≡ some e')
      × (handle_timer_expired now' e' ≡ some e'')
      × (e''.event_queue ≡ e.event_queue ++ call_owner second.owner second.id ∷ [])
      × (e''.timers.times_by_date ≡ rest)
cancelled_expiry_early now now' e first second rest s split =
    let (e', made, s', left, queue) = cancel_first now e first (second ∷ rest) s split in
    elim (handle_timer_expired-Timed now' e' s'.1) [
      | inl (empty, idle) ↦ absurd (ground (arith, left, empty))
      | inr (next, more, e'', split', expired, queued, signalled, after, timed) ↦
          let both : (next ≡ second) × (more ≡ rest) = ground (arith, left, split') in
          (
            e',
            e'',
            made,
            expired,
            queued
                ∙ ap (λ q. q ++ call_owner next.owner next.id ∷ []) queue
                ∙ ap (λ (t : Timer). e.event_queue ++ call_owner t.owner t.id ∷ []) both.0,
            after ∙ both.1,
          )
    ]
