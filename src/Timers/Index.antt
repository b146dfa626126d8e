-- ===== src/Timers/Index.antt =====
-- src/timers.cpp: how the two indexes correspond, and what removing a timer does to them.
use epoller.Prelude.{
  ℕ, ◌≤◌, ◌<◌, ◌≡◌, refl, sym, ◌∙◌, Bool, true, not, ◌&&◌, List, [], ◌∷◌, ◌==◌, arith, keep_if,
  count_if, some,
}
use epoller.Prelude.Count.{
  In, length-count_if, count_if-keep_if, count_if-keep_if_le, keep_if_ext, count_if_pos,
  In-count_if,
}
use epoller.Timers.Defs.{
  Timer, Timers, is_timer, erase_dates, erase_timer, find_timer, owned_by, checked, due_or,
  remove_in, remove_timer,
}
use epoller.Timers.Erase.{
  IsSorted, IsSorted-keep_if, IsSorted-unique, any_due, erase_dates-keep_if, erase_timer-keep_if,
}

-- The indexes agree: the map is in order, each timer is in it at most once, and whatever is asked of a
-- timer, the two indexes hold as many that answer yes.
pub record Inv (t : Timers) : Type 0 where
  pub sorted : IsSorted t.times_by_date
  pub same : (p : Timer → Bool) → count_if p t.times_by_date ≡ count_if p t.timers_by_owner
  pub once : (owner id : ℕ) → count_if (is_timer owner id) t.times_by_date ≤ 1

-- The timers that pass a test, in both indexes.
abbrev pub keep : (Timer → Bool) → Timers → Timers
keep p t = record {
  times_by_date = keep_if p t.times_by_date;
  timers_by_owner = keep_if p t.timers_by_owner;
}

pub keep-Inv : (p : Timer → Bool) (t : Timers) → Inv t → Inv (keep p t)
keep-Inv p t v = record {
  sorted = IsSorted-keep_if p t.times_by_date v.sorted;
  same = λ q.
      count_if-keep_if q p t.times_by_date
      ∙ v.same (λ x. p x && q x)
      ∙ sym (count_if-keep_if q p t.timers_by_owner);
  once = λ owner id.
      omega (arith, v.once owner id, count_if-keep_if_le (is_timer owner id) p t.times_by_date);
}

-- Indexes that agree pass the assertion on their sizes.
pub checked-Inv : (t : Timers) → Inv t → checked t ≡ some t
unfolding checked
checked-Inv t v =
    ground (
      arith,
      length-count_if t.times_by_date,
      length-count_if t.timers_by_owner,
      v.same (λ _. true),
    )

-- The loops over no entries do nothing, so removeTimer's guard changes nothing.
remove_in_lem :
    (range : List Timer) (what timer now : ℕ) (t : Timers)
    → (range ≡ [] → erase_timer what timer t.timers_by_owner ≡ t.timers_by_owner)
    → remove_in range what timer now t ≡ (
      record {
        times_by_date = erase_dates timer range t.times_by_date;
        timers_by_owner = erase_timer what timer t.timers_by_owner;
      },
      due_or now (find_timer timer range),
    )
unfolding remove_in erase_dates find_timer
remove_in_lem [] what timer now t h = rw (h refl)
remove_in_lem (bo ∷ range) what timer now t h = refl

erase_timer_absent :
    (what timer : ℕ) (bs : List Timer) → owned_by what bs ≡ [] → erase_timer what timer bs ≡ bs
unfolding erase_timer
erase_timer_absent what timer [] h = refl
erase_timer_absent what timer (bo ∷ bs) h = ground (arith, erase_timer_absent what timer bs)

abbrev owned_at : ℕ → ℕ → Timer → Bool
owned_at what tp x = x.owner == what && x.due == tp

module _ (t : Timers) (v : Inv t) where
  count-owned_by :
      (what tp : ℕ)
      → count_if (λ bo. bo.due == tp) (owned_by what t.timers_by_owner)
        ≡ count_if (owned_at what tp) t.times_by_date
  count-owned_by what tp =
      count_if-keep_if (λ bo. bo.due == tp) (λ x. x.owner == what) t.timers_by_owner
      ∙ sym (v.same (owned_at what tp))

  owner_of_due :
      (what : ℕ) (e : Timer)
      → In e t.times_by_date
      → 0 < count_if (owned_at what e.due) t.times_by_date
      → e.owner ≡ what
  owner_of_due what e i h =
      let (e', j, q) = In-count_if (owned_at what e.due) t.times_by_date h in
      let one : e ≡ e' = IsSorted-unique t.times_by_date e e' v.sorted i j (ground arith) in
      ground arith

  -- An entry of the map is due at the time of some entry of `what` exactly when it is one of them.
  pub any_due-owned_by :
      (what : ℕ) (e : Timer)
      → In e t.times_by_date
      → any_due (owned_by what t.timers_by_owner) e.due ≡ (e.owner == what)
  any_due-owned_by what e i = ground (
    arith,
    count-owned_by what e.due,
    owner_of_due what e i,
    count_if_pos (owned_at what e.due) t.times_by_date e i,
  )

  erase_dates-keep :
      (what timer : ℕ)
      → erase_dates timer (owned_by what t.timers_by_owner) t.times_by_date
        ≡ keep_if (λ x. not (is_timer what timer x)) t.times_by_date
  erase_dates-keep what timer =
      erase_dates-keep_if timer (owned_by what t.timers_by_owner) t.times_by_date v.sorted
      ∙ keep_if_ext (λ d. not (d.id == timer && any_due (owned_by what t.timers_by_owner) d.due))
          (λ d. not (is_timer what timer d)) t.times_by_date
          (λ e i. ground (arith, any_due-owned_by what e i))

  erase_timer-keep :
      (what timer : ℕ)
      → erase_timer what timer t.timers_by_owner
        ≡ keep_if (λ x. not (is_timer what timer x)) t.timers_by_owner
  erase_timer-keep what timer =
      erase_timer-keep_if what timer t.timers_by_owner
        (omega (arith, v.same (is_timer what timer), v.once what timer))

  -- removeTimer finds the indexes in agreement, and takes the timer out of both of them.
  pub remove_timer-keep :
      (what timer now : ℕ)
      → remove_timer what timer now t
        ≡ some (
          keep (λ x. not (is_timer what timer x)) t,
          due_or now (find_timer timer (owned_by what t.timers_by_owner)),
        )
  unfolding remove_timer
  remove_timer-keep what timer now =
      let kept = keep (λ x. not (is_timer what timer x)) t in
      rw (
        remove_in_lem (owned_by what t.timers_by_owner) what timer now t
            (erase_timer_absent what timer t.timers_by_owner),
        erase_dates-keep what timer,
        erase_timer-keep what timer,
        checked-Inv kept (keep-Inv _ t v),
      )
