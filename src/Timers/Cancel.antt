-- ===== src/Timers/Cancel.antt =====
-- src/timers.cpp: cancelTimer, handleTimerExpired and cancelAllTimers on indexes that agree.
use epoller.Prelude.{
  ℕ, ◌≤◌, ◌<◌, ◌≡◌, refl, ap, ◌∙◌, inl, inr, Bool, true, not, ◌&&◌, List, [], ◌∷◌, ◌==◌, arith,
  keep_if, count_if, Bool-cases, none, some,
}
use epoller.Prelude.Int.{sub_ℕ}
use epoller.Prelude.Count.{
  In, keep_if_ext, keep_if_none, count_if_pos, In-count_if, count_if_unique,
}
use epoller.Timers.Defs.{
  Timer, Timers, Done, is_timer, due_or, find_timer, owned_by, cancel_timer, handle_timer_expired,
  erase_all, cancel_all_timers, set_trigger, retrigger, start_event,
}
use epoller.Timers.Erase.{any_due, erase_all-keep_if}
use epoller.Timers.Index.{Inv, keep, keep-Inv, checked-Inv, remove_timer-keep, any_due-owned_by}

find_timer-some :
    (owner timer : ℕ) (bs : List Timer)
    → 0 < count_if (is_timer owner timer) bs
    → (b : Timer) × (find_timer timer (owned_by owner bs) ≡ some b)
      × In b bs
      × (is_timer owner timer b ≡ true)
unfolding find_timer
find_timer-some owner timer [] h = absurd (omega arith)
find_timer-some owner timer (x ∷ bs) h = elim (Bool-cases (is_timer owner timer x)) [
  | inl hit ↦ (x, ground arith, inl refl, hit)
  | inr miss ↦
      let (b, e, i, q) = find_timer-some owner timer bs (ground arith) in
      (b, ground (arith, e), inr i, q)
]

find_timer-none :
    (owner timer : ℕ) (bs : List Timer)
    → count_if (is_timer owner timer) bs ≡ 0
    → find_timer timer (owned_by owner bs) ≡ none
unfolding find_timer
find_timer-none owner timer [] h = refl
find_timer-none owner timer (x ∷ bs) h = ground (arith, find_timer-none owner timer bs)

abbrev same_entry : Timer → Timer → Bool
same_entry b x = x.due == b.due && is_timer b.owner b.id x

module _ (t : Timers) (v : Inv t) (owner timer : ℕ) where
  -- What removeTimer returns for a timer that is set: when it was due.
  due-find_timer :
      (now : ℕ) (e : Timer)
      → In e t.times_by_date
      → is_timer owner timer e ≡ true
      → due_or now (find_timer timer (owned_by owner t.timers_by_owner)) ≡ e.due
  due-find_timer now e i q =
      let found = find_timer-some owner timer t.timers_by_owner (
        omega (
          arith,
          v.same (is_timer owner timer),
          count_if_pos (is_timer owner timer) t.times_by_date e i q,
        )) in
      let b = found.0 in
      let held = In-count_if (same_entry b) t.times_by_date (
        omega (
          arith,
          v.same (same_entry b),
          count_if_pos (same_entry b) t.timers_by_owner b found.2 (ground arith),
        )) in
      let one : e ≡ held.0 =
        count_if_unique (is_timer owner timer) t.times_by_date e held.0 (v.once owner timer) i
          held.1 q (ground (arith, found.3, held.2)) in
      rw found.1 (ground (arith, one, held.2))

  -- cancelTimer takes the timer out of both indexes, and nothing else. Its result is how long the
  -- timer still had to run, or for one that is not set the time between two readings of the clock;
  -- armTimer is called for the earliest timer if that is another one than before.
  pub cancel_timer-Inv :
      (now : ℕ → ℕ)
      → (d : Done) × (cancel_timer now (some owner) timer t ≡ some d)
        × Inv d.timers
        × (d.timers ≡ keep (λ x. not (is_timer owner timer x)) t)
        × ((e : Timer)
            → In e t.times_by_date
            → is_timer owner timer e ≡ true
            → d.result ≡ sub_ℕ e.due (now 1))
        × (count_if (is_timer owner timer) t.times_by_date ≡ 0 → d.result ≡ sub_ℕ (now 0) (now 1))
        × (d.call ≡ retrigger (now 2) (start_event t.times_by_date) d.timers.times_by_date)
  unfolding cancel_timer
  cancel_timer-Inv now =
      let kept = keep (λ x. not (is_timer owner timer x)) t in
      (
        record {
          timers = kept;
          call = retrigger (now 2) (start_event t.times_by_date) kept.times_by_date;
          result =
              sub_ℕ (due_or (now 0) (find_timer timer (owned_by owner t.timers_by_owner))) (now 1);
        },
        rw (remove_timer-keep t v owner timer (now 0)),
        keep-Inv _ t v,
        refl,
        λ e i q. rw (due-find_timer (now 0) e i q),
        λ z. rw (
            find_timer-none owner timer t.timers_by_owner
              (omega (arith, z, v.same (is_timer owner timer)))),
        refl,
      )

module _ (t : Timers) (v : Inv t) where
  -- Without the earliest timer the map is its rest.
  pub keep_rest :
      (first : Timer) (rest : List Timer)
      → t.times_by_date ≡ first ∷ rest
      → keep_if (λ x. not (is_timer first.owner first.id x)) t.times_by_date ≡ rest
  keep_rest first rest e =
      let gone = is_timer first.owner first.id in
      let one : count_if gone (first ∷ rest) ≤ 1 =
        omega (arith, v.once first.owner first.id, ap (count_if gone) e) in
      ap (keep_if (λ x. not (gone x))) e ∙ ground (arith, one, keep_if_none gone rest)

  -- handleTimerExpired takes the earliest timer out of both indexes and arms for the next one.
  pub handle_timer_expired-Inv :
      (now : ℕ → ℕ) (first : Timer) (rest : List Timer)
      → t.times_by_date ≡ first ∷ rest
      → (t' : Timers) × (handle_timer_expired now t ≡ some (t', set_trigger (now 1) rest))
        × Inv t'
        × (t'.times_by_date ≡ rest)
  unfolding handle_timer_expired
  handle_timer_expired-Inv now first rest e =
      let left = keep_rest first rest e in
      (
        keep (λ x. not (is_timer first.owner first.id x)) t,
        ground (arith, e, left, remove_timer-keep t v first.owner first.id (now 0)),
        keep-Inv _ t v,
        left,
      )

  -- cancelAllTimers takes the timers of one owner out of both indexes, and nothing else.
  pub cancel_all_timers-Inv :
      (now what : ℕ)
      → let kept = keep (λ x. not (x.owner == what)) t in
        (cancel_all_timers now what t
          ≡ some (kept, retrigger now (start_event t.times_by_date) kept.times_by_date))
        × Inv kept
  unfolding cancel_all_timers
  cancel_all_timers-Inv now what =
      let kept = keep (λ x. not (x.owner == what)) t in
      let range = owned_by what t.timers_by_owner in
      let erased : erase_all range t.times_by_date ≡ kept.times_by_date =
        erase_all-keep_if range t.times_by_date
        ∙ keep_if_ext (λ d. not (any_due range d.due)) (λ d. not (d.owner == what)) t.times_by_date
            (λ d i. ap not (any_due-owned_by t v what d i)) in
      (rw (erased, checked-Inv kept (keep-Inv _ t v)), keep-Inv _ t v)
