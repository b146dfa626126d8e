-- ===== src/Timers/Defs.antt =====
-- src/timers.cpp: the state and the operations of Timers.
use epoller.Prelude.{
  ℕ, ◌+◌, ◌-◌, max, Bool, true, false, not, ◌&&◌, List, [], ◌∷◌, ◌==◌, ltb, if◌then◌else◌, Option,
  none, some, length, keep_if, ◌>>=◌,
}
use epoller.Prelude.Int.{ℤ, pos, sub_ℕ}

-- One entry of either index: when it is due, the Runnable that owns it, and the address of its Event.
pub record Timer : Type 0 where
  pub due : ℕ
  pub owner : ℕ
  pub id : ℕ

-- timesByDate is a map, in the order of its keys; timersByOwner is an unordered multimap, whose order
-- is not specified and stands for nothing here.
pub record Timers : Type 0 where
  pub times_by_date : List Timer
  pub timers_by_owner : List Timer

-- A call of armTimer: with the event to run and the time until then, or with nothing to disarm.
pub data ArmCall : Type 0 where
  arm : ℕ → ℕ → ℕ → ArmCall
  disarm : ArmCall

abbrev pub is_timer : ℕ → ℕ → Timer → Bool
is_timer owner id t = t.owner == owner && t.id == id

-- setTrigger: the owner and the event of the first timer, and the nanoseconds until it is due.
unfoldable pub set_trigger : ℕ → List Timer → ArmCall
set_trigger now [] = disarm
set_trigger now (t ∷ ts) = arm t.owner t.id (max 1 (t.due - now))

-- getStartEvent, `none` for the two null pointers.
unfoldable pub start_event : List Timer → Option (ℕ × ℕ)
start_event [] = none
start_event (t ∷ ts) = some (t.owner, t.id)

-- operator== of TimerRunnableId.
unfoldable pub same_event : Option (ℕ × ℕ) → Option (ℕ × ℕ) → Bool
same_event none none = true
same_event (some (ep, id)) (some (ep', id')) = ep == ep' && id == id'
same_event _ _ = false

-- The call that follows `if(oldStartEvent != getStartEvent())`, if it is made.
unfoldable pub retrigger : ℕ → Option (ℕ × ℕ) → List Timer → Option ArmCall
unfolding set_trigger start_event same_event
retrigger now old by_date =
    if same_event old (start_event by_date) then none else some (set_trigger now by_date)

-- The body of the first loop of removeTimer: the entry due at `tp`, if its event is `timer`, goes.
unfoldable pub erase_date : ℕ → ℕ → List Timer → List Timer
erase_date tp timer [] = []
erase_date tp timer (d ∷ ds) =
    if d.due == tp && d.id == timer then ds else d ∷ erase_date tp timer ds

-- That loop, over the entries of one owner.
unfoldable pub erase_dates : ℕ → List Timer → List Timer → List Timer
unfolding erase_date
erase_dates timer [] by_date = by_date
erase_dates timer (bo ∷ range) by_date = erase_dates timer range (erase_date bo.due timer by_date)

-- find_if over the entries of one owner.
unfoldable pub find_timer : ℕ → List Timer → Option Timer
find_timer timer [] = none
find_timer timer (bo ∷ range) = if bo.id == timer then some bo else find_timer timer range

-- timersByOwner.erase(it) of the entry found.
unfoldable pub erase_timer : ℕ → ℕ → List Timer → List Timer
erase_timer what timer [] = []
erase_timer what timer (bo ∷ rest) =
    if is_timer what timer bo then rest else bo ∷ erase_timer what timer rest

-- The assertion that closes each operation.
unfoldable pub checked : Timers → Option Timers
checked t = if length t.times_by_date == length t.timers_by_owner then some t else none

abbrev pub due_or : ℕ → Option Timer → ℕ
due_or now none = now
due_or now (some t) = t.due

-- timersByOwner.equal_range(what).
abbrev pub owned_by : ℕ → List Timer → List Timer
owned_by what = keep_if (λ t. t.owner == what)

-- What removeTimer does to the two indexes, given the owner's entries, and when the timer was due.
unfoldable pub remove_in : List Timer → ℕ → ℕ → ℕ → Timers → Timers × ℕ
remove_in [] what timer now t = (t, now)
remove_in (bo ∷ range) what timer now t = (
  record {
    times_by_date = erase_dates timer (bo ∷ range) t.times_by_date;
    timers_by_owner = erase_timer what timer t.timers_by_owner;
  },
  due_or now (find_timer timer (bo ∷ range)),
)

-- removeTimer.
unfoldable pub remove_timer : ℕ → ℕ → ℕ → Timers → Option (Timers × ℕ)
unfolding remove_in checked
remove_timer what timer now t =
    let (t', prev) = remove_in (owned_by what t.timers_by_owner) what timer now t in
    do t'' ← checked t'; some (t'', prev)

-- timesByDate.emplace: no entry is made where the time has one.
unfoldable pub emplace_date : Timer → List Timer → List Timer
emplace_date e [] = e ∷ []
emplace_date e (d ∷ ds) =
    if ltb e.due d.due then e ∷ d ∷ ds else if e.due == d.due then d ∷ ds else d ∷ emplace_date e ds

-- What an operation gives: the timers, the call of armTimer that it makes, and its result.
pub record Done : Type 0 where
  pub timers : Timers
  pub call : Option ArmCall
  pub result : ℤ

-- cancelTimer. The owner is `none` if the event's object is gone.
unfoldable pub cancel_timer : (ℕ → ℕ) → Option ℕ → ℕ → Timers → Option Done
unfolding remove_timer retrigger
cancel_timer now none timer t = some (record { timers = t; call = none; result = pos 0 })
cancel_timer now (some owner) timer t = do
  (t', prev) ← remove_timer owner timer (now 0) t
  some (record {
    timers = t';
    call = retrigger (now 2) (start_event t.times_by_date) t'.times_by_date;
    result = sub_ℕ prev (now 1);
  })

-- setTimer.
unfoldable pub set_timer : (ℕ → ℕ) → Option ℕ → ℕ → ℕ → Timers → Option Done
unfolding remove_timer retrigger emplace_date checked
set_timer now none timer timeout t = some (record { timers = t; call = none; result = pos 0 })
set_timer now (some owner) timer timeout t =
    let new : Timer = record { due = now 0 + timeout; owner = owner; id = timer } in
    do
      (removed, prev) ← remove_timer owner timer (now 1) t
      t' ← checked (record {
        times_by_date = emplace_date new removed.times_by_date;
        timers_by_owner = new ∷ removed.timers_by_owner;
      })
      some (record {
        timers = t';
        call = retrigger (now 3) (start_event t.times_by_date) t'.times_by_date;
        result = sub_ℕ prev (now 2);
      })

-- handleTimerExpired: the first timer goes, and the next one is armed.
unfoldable pub handle_timer_expired : (ℕ → ℕ) → Timers → Option (Timers × ArmCall)
unfolding remove_timer set_trigger
handle_timer_expired now t = elim t.times_by_date [
  | [] ↦ none
  | first ∷ rest ↦ do
    (t', prev) ← remove_timer first.owner first.id (now 0) t
    some (t', set_trigger (now 1) t'.times_by_date)
]

-- timesByDate.erase of the range that is due at `tp`.
unfoldable pub erase_due : ℕ → List Timer → List Timer
erase_due tp by_date = keep_if (λ d. not (d.due == tp)) by_date

-- The loop of cancelAllTimers.
unfoldable pub erase_all : List Timer → List Timer → List Timer
unfolding erase_due
erase_all [] by_date = by_date
erase_all (bo ∷ range) by_date = erase_all range (erase_due bo.due by_date)

-- cancelAllTimers.
unfoldable pub cancel_all_timers : ℕ → ℕ → Timers → Option (Timers × Option ArmCall)
unfolding erase_all checked retrigger
cancel_all_timers now what t = do
  t' ← checked (record {
    times_by_date = erase_all (owned_by what t.timers_by_owner) t.times_by_date;
    timers_by_owner = keep_if (λ bo. not (bo.owner == what)) t.timers_by_owner;
  })
  some (t', retrigger now (start_event t.times_by_date) t'.times_by_date)

-- clear.
unfoldable pub clear : Timers → Timers
clear t = record { times_by_date = []; timers_by_owner = [] }
