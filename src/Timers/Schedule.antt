-- ===== src/Timers/Schedule.antt =====
-- src/timers.cpp: what Timers promises its callers: when each event of each owner is due.
use epoller.Prelude.{
  ℕ, ◌+◌, ◌≤◌, ◌<◌, ◌≡◌, not, ◌&&◌, List, [], ◌∷◌, ◌==◌, if◌then◌else◌, arith, Option, none, some,
  keep_if, count_if,
}
use epoller.Timers.Defs.{Timer, Timers, is_timer, emplace_date}
use epoller.Timers.Erase.{After, IsSorted}
use epoller.Timers.Set.{is_due}
use epoller.Timers.Trigger.{Call, sets, cancels, expires, cancels_all, Armed}

-- When an event of an owner is due, `none` if it is not set.
abbrev pub Schedule : Type 0
Schedule = ℕ → ℕ → Option ℕ

-- The schedule `g` is `f`, changed at one event.
abbrev pub IsUpdate : ℕ → ℕ → Option ℕ → Schedule → Schedule → Type 0
IsUpdate owner id due f g = (o i : ℕ) → g o i ≡ (if o == owner && i == id then due else f o i)

-- The event of an owner is due when no other is due before it.
abbrev pub IsEarliest : ℕ → ℕ → Schedule → Type 0
IsEarliest owner id f =
    (due : ℕ) × (f owner id ≡ some due) × ((o i d : ℕ) → f o i ≡ some d → due ≤ d)

-- What a call may make of a schedule.
abbrev pub Meets : (ℕ → ℕ) → Call → Schedule → Schedule → Type 0
Meets now (sets (some owner) timer timeout) f g = IsUpdate owner timer (some (now 0 + timeout)) f g
Meets now (sets none timer timeout) f g = (o i : ℕ) → g o i ≡ f o i
Meets now (cancels (some owner) timer) f g = IsUpdate owner timer none f g
Meets now (cancels none timer) f g = (o i : ℕ) → g o i ≡ f o i
Meets now expires f g = (owner : ℕ) × (id : ℕ) × IsEarliest owner id f × IsUpdate owner id none f g
Meets now (cancels_all what) f g = (o i : ℕ) → g o i ≡ (if o == what then none else f o i)

-- What the calls of a history, one after the other, may make of a schedule.
pub data Replays : List ((ℕ → ℕ) × Call) → Schedule → Schedule → Type 0 where
  rests : {f : Schedule} → Replays [] f f
  calls :
      {now : ℕ → ℕ} {call : Call} {more : List ((ℕ → ℕ) × Call)} {f g h : Schedule}
      → Meets now call f g
      → Replays more g h
      → Replays ((now, call) ∷ more) f h

-- The event that is armed is one that no other is due before, and none is armed where none is set.
abbrev pub ArmedFor : Schedule → Armed → Type 0
ArmedFor f none = (o i : ℕ) → f o i ≡ none
ArmedFor f (some (owner, id)) = IsEarliest owner id f

-- The schedule that a map holds.
unfoldable pub due_in : ℕ → ℕ → List Timer → Option ℕ
due_in o i [] = none
due_in o i (d ∷ ds) = if is_timer o i d then some d.due else due_in o i ds

abbrev pub schedule : Timers → Schedule
schedule t o i = due_in o i t.times_by_date

pub due_in-cancel :
    (owner timer o i : ℕ) (ds : List Timer)
    → due_in o i (keep_if (λ x. not (is_timer owner timer x)) ds)
      ≡ (if o == owner && i == timer then none else due_in o i ds)
unfolding due_in
due_in-cancel owner timer o i [] = ground arith
due_in-cancel owner timer o i (d ∷ ds) = ground (arith, due_in-cancel owner timer o i ds)

pub due_in-cancel_all :
    (what o i : ℕ) (ds : List Timer)
    → due_in o i (keep_if (λ x. not (x.owner == what)) ds)
      ≡ (if o == what then none else due_in o i ds)
unfolding due_in
due_in-cancel_all what o i [] = ground arith
due_in-cancel_all what o i (d ∷ ds) = ground (arith, due_in-cancel_all what o i ds)

pub due_in-emplace_date :
    (e : Timer) (o i : ℕ) (ds : List Timer)
    → count_if (is_due e.due) ds ≡ 0
    → count_if (is_timer e.owner e.id) ds ≡ 0
    → due_in o i (emplace_date e ds)
      ≡ (if o == e.owner && i == e.id then some e.due else due_in o i ds)
unfolding due_in emplace_date
due_in-emplace_date e o i [] free absent = ground arith
due_in-emplace_date e o i (d ∷ ds) free absent = ground (arith, due_in-emplace_date e o i ds)

due_in-After : (n o i due : ℕ) (ds : List Timer) → After n ds → due_in o i ds ≡ some due → n < due
unfolding due_in
due_in-After n o i due [] h e = cc
due_in-After n o i due (d ∷ ds) h e = ground (arith, due_in-After n o i due ds h.1)

-- The first timer of a map is the earliest.
pub first-IsEarliest :
    (first : Timer) (rest : List Timer)
    → IsSorted (first ∷ rest)
    → IsEarliest first.owner first.id (λ o i. due_in o i (first ∷ rest))
unfolding due_in
first-IsEarliest first rest s =
    (first.due, ground arith, λ o i d e. ground (arith, due_in-After first.due o i d rest s.0))
