-- ===== src/Timers/Set.antt =====
-- src/timers.cpp: setTimer on indexes that agree.
use epoller.Prelude.{
  ℕ, ◌+◌, ◌≤◌, ◌<◌, ◌≡◌, ◌↔◌, refl, ◌∙◌, Bool, true, false, not, List, [], ◌∷◌, ◌==◌, if◌then◌else◌,
  arith, count_if, none, some, ◌>>=◌, dec_lt,
}
use epoller.Prelude.Int.{sub_ℕ}
use epoller.Prelude.Count.{length-count_if, count_if-keep_if, count_if-false, count_if_ext}
use epoller.Timers.Defs.{
  Timer, Timers, Done, is_timer, checked, due_or, find_timer, owned_by, emplace_date, set_timer,
  retrigger, start_event,
}
use epoller.Timers.Erase.{After, After-mono, IsSorted}
use epoller.Timers.Index.{Inv, keep, keep-Inv, checked-Inv, remove_timer-keep}

abbrev pub is_due : ℕ → Timer → Bool
is_due tp x = x.due == tp

After-emplace_date :
    (n : ℕ) (e : Timer) (ds : List Timer) → n < e.due → After n ds → After n (emplace_date e ds)
unfolding emplace_date
After-emplace_date n e [] h a = (h, tt)
After-emplace_date n e (d ∷ ds) h a = ground (arith, After-emplace_date n e ds h a.1)

IsSorted-emplace_date : (e : Timer) (ds : List Timer) → IsSorted ds → IsSorted (emplace_date e ds)
unfolding emplace_date
IsSorted-emplace_date e [] s = (tt, tt)
IsSorted-emplace_date e (d ∷ ds) s = ground (
  arith,
  IsSorted-emplace_date e ds s.1,
  After-emplace_date d.due e ds,
  After-mono {m = e.due} {n = d.due} ds,
)

-- At a free time the map takes the entry.
count-emplace_date :
    (p : Timer → Bool) (e : Timer) (ds : List Timer)
    → count_if (is_due e.due) ds ≡ 0
    → count_if p (emplace_date e ds) ≡ (if p e then 1 else 0) + count_if p ds
unfolding emplace_date
count-emplace_date p e [] h = refl
count-emplace_date p e (d ∷ ds) h = ground (arith, count-emplace_date p e ds)

pub After-count : (n tp : ℕ) (ds : List Timer) → tp ≤ n → After n ds → count_if (is_due tp) ds ≡ 0
After-count n tp [] q h = refl
After-count n tp (d ∷ ds) q h = ground (arith, After-count n tp ds q h.1)

-- At a time that is taken it stays as it was.
emplace_date_taken :
    (e : Timer) (ds : List Timer)
    → IsSorted ds
    → 0 < count_if (is_due e.due) ds
    → emplace_date e ds ≡ ds
unfolding emplace_date
emplace_date_taken e [] s h = absurd (omega arith)
emplace_date_taken e (d ∷ ds) s h =
    ground (arith, emplace_date_taken e ds s.1, After-count d.due e.due ds)

-- The indexes with the entry `new` in both.
abbrev pub add_timer : Timer → Timers → Timers
add_timer new t = record {
  times_by_date = emplace_date new t.times_by_date;
  timers_by_owner = new ∷ t.timers_by_owner;
}

add_timer-Inv :
    (new : Timer) (t : Timers)
    → Inv t
    → count_if (is_due new.due) t.times_by_date ≡ 0
    → count_if (is_timer new.owner new.id) t.times_by_date ≡ 0
    → Inv (add_timer new t)
add_timer-Inv new t v free absent = record {
  sorted = IsSorted-emplace_date new t.times_by_date v.sorted;
  same = λ p. ground (arith, count-emplace_date p new t.times_by_date free, v.same p);
  once = λ owner id.
      ground
        (arith, count-emplace_date (is_timer owner id) new t.times_by_date free, v.once owner id);
}

-- The assertion behind the two insertions.
checked-add_timer :
    (new : Timer) (t : Timers)
    → Inv t
    → 0 < count_if (is_due new.due) t.times_by_date
    → checked (add_timer new t) ≡ none
unfolding checked
checked-add_timer new t v h = ground (
  arith,
  emplace_date_taken new t.times_by_date v.sorted h,
  length-count_if t.times_by_date,
  length-count_if t.timers_by_owner,
  v.same (λ _. true),
)

module _ (now : ℕ → ℕ) (owner timer timeout : ℕ) (t : Timers) where
  -- The entry that setTimer makes, and the other timers.
  abbrev pub new : Timer
  new = record { due = now 0 + timeout; owner = owner; id = timer }

  abbrev pub others : Timers
  others = keep (λ x. not (is_timer owner timer x)) t

  -- How many other timers are due when the new one is.
  abbrev pub clashes : ℕ
  clashes = count_if (is_due (now 0 + timeout)) others.times_by_date

  pub absent : count_if (is_timer owner timer) others.times_by_date ≡ 0
  absent =
      count_if-keep_if (is_timer owner timer) (λ x. not (is_timer owner timer x)) t.times_by_date
      ∙ count_if_ext _ (λ _. false) t.times_by_date (λ x i. ground arith)
      ∙ count_if-false t.times_by_date

  module _ (v : Inv t) where
    set_timer-checked : set_timer now (some owner) timer timeout t ≡ (
        checked (add_timer new others) >>= λ t'. some (record {
          timers = t';
          call = retrigger (now 3) (start_event t.times_by_date) t'.times_by_date;
          result =
              sub_ℕ (due_or (now 1) (find_timer timer (owned_by owner t.timers_by_owner))) (now 2);
        }))
    unfolding set_timer
    set_timer-checked = rw (remove_timer-keep t v owner timer (now 1))

    -- setTimer traps exactly when another timer is due at the nanosecond of the new one.
    pub set_timer_traps_iff : (set_timer now (some owner) timer timeout t ≡ none) ↔ (0 < clashes)
    set_timer_traps_iff = (
      λ e. elim (dec_lt 0 clashes) [
        | yes h ↦ h
        | no h ↦
            let ok =
              checked-Inv (add_timer new others)
                (add_timer-Inv new others (keep-Inv _ t v) (omega arith) absent) in
            ground (arith, set_timer-checked, ok)
      ],
      λ h. ground (arith, set_timer-checked, checked-add_timer new others (keep-Inv _ t v) h),
    )

    -- Where no other timer is due then, the indexes agree afterwards, and hold the new entry and the other timers,
    -- as they were; armTimer is called for the earliest timer if that is another one than before.
    pub set_timer-Inv :
        clashes ≡ 0
        → (d : Done) × (set_timer now (some owner) timer timeout t ≡ some d)
          × Inv d.timers
          × ((p : Timer → Bool)
              → count_if p d.timers.times_by_date
                ≡ (if p new then 1 else 0) + count_if p others.times_by_date)
          × (d.call ≡ retrigger (now 3) (start_event t.times_by_date) d.timers.times_by_date)
          × (d.timers ≡ add_timer new others)
    set_timer-Inv free =
        let inv = add_timer-Inv new others (keep-Inv _ t v) free absent in
        (
          record {
            timers = add_timer new others;
            call =
                retrigger (now 3) (start_event t.times_by_date)
                  (add_timer new others).times_by_date;
            result =
                sub_ℕ (due_or (now 1) (find_timer timer (owned_by owner t.timers_by_owner)))
                  (now 2);
          },
          rw (set_timer-checked, checked-Inv (add_timer new others) inv),
          inv,
          λ p. count-emplace_date p new others.times_by_date free,
          refl,
          refl,
        )
