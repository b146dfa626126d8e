-- ===== src/Timers/Stale.antt =====
-- src/timers.cpp: a timer that is set anew while it is the earliest.
use epoller.Prelude.{ℕ, ◌+◌, ◌≡◌, refl, ap, ◌∙◌, List, [], ◌∷◌, arith, count_if, none, some}
use epoller.Timers.Defs.{Timer, Timers, Done, set_timer, retrigger, start_event, emplace_date}
use mathlib.Core.Path.{ap₂}
use epoller.Timers.Erase.{After}
use epoller.Timers.Index.{Inv}
use epoller.Timers.Set.{set_timer-Inv, others, is_due, After-count}
use epoller.Timers.Cancel.{keep_rest}

emplace_date_first : (e : Timer) (ds : List Timer) → After e.due ds → emplace_date e ds ≡ e ∷ ds
unfolding emplace_date
emplace_date_first e [] h = refl
emplace_date_first e (d ∷ ds) h = ground arith

retrigger_same :
    (first : Timer) (when now : ℕ) (rest : List Timer)
    → retrigger now (start_event (first ∷ rest)) (record first { due = when } ∷ rest) ≡ none
unfolding retrigger
retrigger_same first when now rest = ground arith

-- When the timer that is already the earliest is set anew and stays the earliest, armTimer is not
-- called, so that the kernel's timer still runs out at the old time.
pub set_timer_stale :
    (now : ℕ → ℕ) (first : Timer) (rest : List Timer) (timeout : ℕ) (t : Timers)
    → Inv t
    → t.times_by_date ≡ first ∷ rest
    → After (now 0 + timeout) rest
    → (d : Done) × (set_timer now (some first.owner) first.id timeout t ≡ some d)
      × (d.timers.times_by_date ≡ record first { due = now 0 + timeout } ∷ rest)
      × (d.call ≡ none)
set_timer_stale now first rest timeout t v e a =
    let left = keep_rest t v first rest e in
    let when = now 0 + timeout in
    let free : count_if (is_due when) (others now first.owner first.id timeout t).times_by_date
        ≡ 0 =
      ap (count_if (is_due when)) left ∙ After-count when when rest (omega arith) a in
    let (d, eq, v', counts, call, added) =
      set_timer-Inv now first.owner first.id timeout t v free in
    let head : d.timers.times_by_date ≡ record first { due = when } ∷ rest =
      ap (λ (x : Timers). x.times_by_date) added
      ∙ ap (emplace_date (record first { due = when })) left
      ∙ emplace_date_first (record first { due = when }) rest a in
    (
      d,
      eq,
      head,
      call
          ∙ ap₂ (λ b c. retrigger (now 3) (start_event b) c) e head
          ∙ retrigger_same first when (now 3) rest,
    )
