-- ===== src/Timers/Refines.antt =====
-- src/timers.cpp: Timers as an implementation of a schedule.
use epoller.Prelude.{
  ℕ, ◌≡◌, refl, inl, inr, not, List, [], ◌∷◌, ◌==◌, arith, none, some, List-cases, dec_lt,
  >>=-eq-some,
}
use epoller.Timers.Defs.{Timers, start_event, handle_timer_expired, set_timer, cancel_timer}
use epoller.Timers.Erase.{IsSorted}
use epoller.Timers.Index.{keep}
use epoller.Timers.Set.{others, new, absent, clashes, set_timer-Inv, set_timer_traps_iff}
use epoller.Timers.Cancel.{
  cancel_timer-Inv, handle_timer_expired-Inv, cancel_all_timers-Inv, keep_rest,
}
use epoller.Timers.Trigger.{
  Call, sets, cancels, expires, cancels_all, Armed, Good, perform, perform_all, initial,
  perform-Good, perform_all-initial,
}
use epoller.Timers.Schedule.{
  Meets, Replays, rests, calls, ArmedFor, due_in, schedule, due_in-cancel, due_in-cancel_all,
  due_in-emplace_date, first-IsEarliest,
}

module _ (now : ℕ → ℕ) (t t' : Timers) (armed armed' : Armed) (g : Good (t, armed)) where
  sets-Meets :
      (owner timer timeout : ℕ)
      → perform now (sets (some owner) timer timeout) (t, armed) ≡ some (t', armed')
      → Meets now (sets (some owner) timer timeout) (schedule t) (schedule t')
  unfolding perform
  sets-Meets owner timer timeout e o i = elim (dec_lt 0 (clashes now owner timer timeout t)) [
    | yes clash ↦
        absurd (ground (arith, (set_timer_traps_iff now owner timer timeout t g.inv).1 clash))
    | no free ↦
        let (d, eq, v, counts, call, added) =
          set_timer-Inv now owner timer timeout t g.inv (omega arith) in
        let same : d.timers ≡ t' = ground (arith, eq, e) in
        rw (← same, added)
          (ground (
            arith,
            due_in-emplace_date (new now owner timer timeout t) o i
                (others now owner timer timeout t).times_by_date (omega (arith, free))
                (absent now owner timer timeout t),
            due_in-cancel owner timer o i t.times_by_date,
          ))
  ]

  cancels-Meets :
      (owner timer : ℕ)
      → perform now (cancels (some owner) timer) (t, armed) ≡ some (t', armed')
      → Meets now (cancels (some owner) timer) (schedule t) (schedule t')
  unfolding perform
  cancels-Meets owner timer e o i =
      let (d, eq, v, kept, due, unset, call) = cancel_timer-Inv t g.inv owner timer now in
      let same : d.timers ≡ t' = ground (arith, eq, e) in
      rw (← same, kept) (due_in-cancel owner timer o i t.times_by_date)

  expires-Meets :
      perform now expires (t, armed) ≡ some (t', armed')
      → Meets now expires (schedule t) (schedule t')
  unfolding perform
  expires-Meets e = elim (List-cases t.times_by_date) [
    | inl none_set ↦ absurd (unfold handle_timer_expired in ground (arith, none_set))
    | inr (first, rest, split) ↦
        let (t'', eq, v, left) = handle_timer_expired-Inv t g.inv now first rest split in
        let same : t'' ≡ t' = ground (arith, eq, e) in
        let sorted : IsSorted (first ∷ rest) = rw split at g.inv.sorted in
        let rest' = keep_rest t g.inv first rest split in
        (
          first.owner,
          first.id,
          rw split (first-IsEarliest first rest sorted),
          λ o i.
              rw (← same, left, ← rest') (due_in-cancel first.owner first.id o i t.times_by_date),
        )
  ]

  cancels_all-Meets :
      (what : ℕ)
      → perform now (cancels_all what) (t, armed) ≡ some (t', armed')
      → Meets now (cancels_all what) (schedule t) (schedule t')
  unfolding perform
  cancels_all-Meets what e o i =
      let (eq, v) = cancel_all_timers-Inv t g.inv (now 0) what in
      let same : keep (λ x. not (x.owner == what)) t ≡ t' = ground (arith, eq, e) in
      rw (← same) (due_in-cancel_all what o i t.times_by_date)

  gone-Meets :
      (timer timeout : ℕ)
      → (perform now (sets none timer timeout) (t, armed) ≡ some (t', armed')
          → Meets now (sets none timer timeout) (schedule t) (schedule t'))
        × (perform now (cancels none timer) (t, armed) ≡ some (t', armed')
            → Meets now (cancels none timer) (schedule t) (schedule t'))
  unfolding perform set_timer cancel_timer
  gone-Meets timer timeout = (
    λ e o i. let same : t ≡ t' = ground (arith, e) in rw same,
    λ e o i. let same : t ≡ t' = ground (arith, e) in rw same,
  )

  perform-Meets :
      (call : Call)
      → perform now call (t, armed) ≡ some (t', armed')
      → Meets now call (schedule t) (schedule t')
  perform-Meets (sets (some owner) timer timeout) = sets-Meets owner timer timeout
  perform-Meets (sets none timer timeout) = (gone-Meets timer timeout).0
  perform-Meets (cancels (some owner) timer) = cancels-Meets owner timer
  perform-Meets (cancels none timer) = (gone-Meets timer 0).1
  perform-Meets expires = expires-Meets
  perform-Meets (cancels_all what) = cancels_all-Meets what

perform_all-Replays :
    (history : List ((ℕ → ℕ) × Call)) (s s' : Timers × Armed)
    → Good s
    → perform_all history s ≡ some s'
    → Replays history (schedule s.0) (schedule s'.0)
unfolding perform_all
perform_all-Replays [] s s' g e = let same : s ≡ s' = ground arith in rw (← same) rests
perform_all-Replays ((now, call) ∷ more) (t, armed) s' g e =
    let (q, first, later) = >>=-eq-some (perform now call (t, armed)) (perform_all more) e in
    calls (perform-Meets now t q.0 armed q.1 g call first)
      (perform_all-Replays more q s' (perform-Good now call t armed q g first) later)

Good-ArmedFor : (t : Timers) (armed : Armed) → Good (t, armed) → ArmedFor (schedule t) armed
unfolding start_event due_in
Good-ArmedFor t armed g = elim (List-cases t.times_by_date) [
  | inl empty ↦
      let idle : armed ≡ none = ground (arith, g.armed, empty) in rw (idle, empty) (λ o i. refl)
  | inr (first, rest, split) ↦
      let sorted : IsSorted (first ∷ rest) = rw split at g.inv.sorted in
      let set : armed ≡ some (first.owner, first.id) = ground (arith, g.armed, split) in
      rw (set, split) (first-IsEarliest first rest sorted)
]

-- After any history of calls from the start that no assertion traps, the timers hold what the history
-- makes of an empty schedule: setTimer sets its event to the reading of the clock and the timeout,
-- cancelTimer and cancelAllTimers take theirs away, handleTimerExpired takes away one than which no other
-- is due earlier, and a call for an event whose object is gone changes nothing. The event that is armed
-- is one than which no other is due earlier, and none is armed exactly where none is set.
pub perform_all-refines :
    (history : List ((ℕ → ℕ) × Call)) (s : Timers × Armed)
    → perform_all history initial ≡ some s
    → Replays history (λ o i. none) (schedule s.0) × ArmedFor (schedule s.0) s.1
unfolding due_in
perform_all-refines history (t, armed) e =
    let good = perform_all-initial history (t, armed) e in
    (
      perform_all-Replays history initial (t, armed)
          (perform_all-initial [] initial (unfold perform_all in refl)) e,
      Good-ArmedFor t armed good,
    )
