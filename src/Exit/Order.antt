-- ===== src/Exit/Order.antt =====
-- src/main.cpp, src/engine.cpp and src/timers.cpp: the order in which the timers of ExitTimer run out.
use epoller.Prelude.{
  ℕ, ◌+◌, ◌*◌, ◌<◌, ◌≤◌, ◌≡◌, refl, sym, ap, ◌∙◌, inl, inr, not, List, [], ◌∷◌, ◌++◌, none, some,
  arith, keep_if, count_if, append_assoc, append-nil, length, ◌>>=◌, Option,
}
use epoller.Query.Message.{one_sec_in_ns}
use epoller.Timers.Defs.{Timer, Timers, is_timer, emplace_date, start_event}
use epoller.Timers.Set.{is_due, set_timer-Inv}
use epoller.Timers.Cancel.{cancel_timer-Inv}
use epoller.Engine.Defs.{
  Engine, Event, call_owner, trigger_if, do_set_timer, do_cancel_timer, handle_timer_expired,
  set_timer_trigger,
}
use epoller.Engine.Expiry.{Timed, trigger_if-armed, handle_timer_expired-Timed}
use epoller.Engine.Sound.{Sound, set-Sound, cancel-Sound}
use epoller.Engine.Loop.{is_idle, is_empty}
use epoller.Exit.{set_timers, expire_all}

abbrev without : ℕ → ℕ → List Timer → List Timer
without owner id = keep_if (λ x. not (is_timer owner id x))

-- A call that makes one map of the timers of another, and queues nothing.
abbrev Makes : (Engine → Option Engine) → List Timer → List Timer → Type 0
Makes call ds ds' =
    (e : Engine)
    → Sound e
    → e.timers.times_by_date ≡ ds
    → (e' : Engine) × (call e ≡ some e')
      × Sound e'
      × (e'.timers.times_by_date ≡ ds')
      × (e'.event_queue ≡ e.event_queue)
      × (e'.event_hash ≡ e.event_hash)

Makes->>= :
    {f g : Engine → Option Engine} {a b c : List Timer}
    → Makes f a b
    → Makes g b c
    → Makes (λ e. f e >>= g) a c
Makes->>= first later e s dates =
    let (e1, made1, s1, dates1, queue1, hash1) = first e s dates in
    let (e2, made2, s2, dates2, queue2, hash2) = later e1 s1 dates1 in
    (e2, ground (arith, made1, made2), s2, dates2, queue2 ∙ queue1, hash2 ∙ hash1)

-- A setTimer at a free time puts its entry in its place.
do_set_timer-Makes :
    (now : ℕ → ℕ) (owner id timeout : ℕ) (ds ds' : List Timer)
    → count_if (is_due (now 0 + timeout)) (without owner id ds) ≡ 0
    → emplace_date (record { due = now 0 + timeout; owner = owner; id = id }) (without owner id ds)
      ≡ ds'
    → Makes (do_set_timer now (some owner) id timeout) ds ds'
unfolding do_set_timer
do_set_timer-Makes now owner id timeout ds ds' free placed e s dates =
    let (d, made, v, counts, call, added) =
      set_timer-Inv now owner id timeout e.timers s.1.inv (rw dates free) in
    let e' : Engine = trigger_if d.call (record e { timers = d.timers }) in
    let end : do_set_timer now (some owner) id timeout e ≡ some e' = ground (arith, made) in
    let (armed, timers, (hash, ids, counter, queue, stop)) =
      trigger_if-armed d.call (record e { timers = d.timers }) in
    let new : Timer = record { due = now 0 + timeout; owner = owner; id = id } in
    (
      e',
      end,
      set-Sound now (some owner) id timeout e e' s end,
      ap (λ (t : Timers). t.times_by_date) (timers ∙ added)
          ∙ ap (λ x. emplace_date new (without owner id x)) dates
          ∙ placed,
      queue,
      hash,
    )

do_cancel_timer-Makes :
    (now : ℕ → ℕ) (owner id : ℕ) (ds ds' : List Timer)
    → without owner id ds ≡ ds'
    → Makes (do_cancel_timer now (some owner) id) ds ds'
unfolding do_cancel_timer
do_cancel_timer-Makes now owner id ds ds' gone e s dates =
    let (d, made, v, kept, due, unset, call) = cancel_timer-Inv e.timers s.1.inv owner id now in
    let e' : Engine = trigger_if d.call (record e { timers = d.timers }) in
    let end : do_cancel_timer now (some owner) id e ≡ some e' = ground (arith, made) in
    let (armed, timers, (hash, ids, counter, queue, stop)) =
      trigger_if-armed d.call (record e { timers = d.timers }) in
    (
      e',
      end,
      cancel-Sound now (some owner) id e e' s end,
      ap (λ (t : Timers). t.times_by_date) (timers ∙ kept) ∙ ap (without owner id) dates ∙ gone,
      queue,
      hash,
    )

-- The events of some timers.
abbrev pub events_of : List Timer → List Event
events_of [] = []
events_of (t ∷ ts) = call_owner t.owner t.id ∷ events_of ts

handle_timer_expired-hash :
    (now : ℕ → ℕ) (e e' : Engine)
    → handle_timer_expired now e ≡ some e'
    → e'.event_hash ≡ e.event_hash
unfolding handle_timer_expired set_timer_trigger
handle_timer_expired-hash now e e' made = ground (arith, made)

-- As many expiries as there are timers queue their events in the order of the map.
expire_all-events :
    (nows : List (ℕ → ℕ)) (e : Engine) (ds : List Timer)
    → Timed e
    → e.timers.times_by_date ≡ ds
    → length nows ≡ length ds
    → (e' : Engine) × (expire_all nows e ≡ some e')
      × (e'.event_queue ≡ e.event_queue ++ events_of ds)
      × (e'.timers.times_by_date ≡ [])
      × Timed e'
      × (e'.event_hash ≡ e.event_hash)
unfolding expire_all
expire_all-events [] e [] g dates many = (e, refl, sym (append-nil e.event_queue), dates, g, refl)
expire_all-events [] e (d ∷ ds) g dates many = absurd (ground arith)
expire_all-events (now ∷ nows) e [] g dates many = absurd (ground arith)
expire_all-events (now ∷ nows) e (d ∷ ds) g dates many = elim (handle_timer_expired-Timed now e g) [
  | inl (empty, idle) ↦ absurd (ground (arith, dates, empty))
  | inr (first, rest, e1, split, expired, queued, signalled, after, g1) ↦
      let both : (first ≡ d) × (rest ≡ ds) = ground (arith, dates, split) in
      let fewer : length nows ≡ length ds = omega (arith, many) in
      let (e2, later, queue, none_left, g2, hash) =
        expire_all-events nows e1 ds g1 (after ∙ both.1) fewer in
      (
        e2,
        ground (arith, expired, later),
        queue
            ∙ ap (λ q. q ++ events_of ds) queued
            ∙ append_assoc e.event_queue (call_owner first.owner first.id ∷ []) (events_of ds)
            ∙ ap (λ (t : Timer). e.event_queue ++ call_owner t.owner t.id ∷ events_of ds) both.0,
        none_left,
        g2,
        hash ∙ handle_timer_expired-hash now e e1 expired,
      )
]

-- The entry of a timer.
abbrev pub entry : ℕ → ℕ → ℕ → Timer
entry self id due = record { due = due; owner = self; id = id }

-- The timers that are left in the end, in the order of the map.
abbrev pub last_four : (ℕ → ℕ → ℕ) → ℕ → List Timer
last_four now self =
    entry self 2 (now 5 0 + 2 * one_sec_in_ns)
    ∷ entry self 3 (now 3 0 + 3 * one_sec_in_ns)
    ∷ entry self 4 (now 2 0 + 4 * one_sec_in_ns)
    ∷ entry self 0 (now 1 0 + 5 * one_sec_in_ns)
    ∷ []

-- The readings with which the timers are set are less than a second apart.
abbrev pub WithinSecond : ℕ → (ℕ → ℕ → ℕ) → Type 0
WithinSecond start now = (k : ℕ) → k ≤ 5 → (start ≤ now k 0) × (now k 0 < start + one_sec_in_ns)

module _ (now : ℕ → ℕ → ℕ) (start self : ℕ) (close : WithinSecond start now) where
  abbrev t0 : Timer
  t0 = entry self 0 (now 1 0 + 5 * one_sec_in_ns)

  abbrev t1 : Timer
  t1 = entry self 1 (now 4 0 + 1 * one_sec_in_ns)

  abbrev t2 : Timer
  t2 = entry self 2 (now 5 0 + 2 * one_sec_in_ns)

  abbrev t3 : Timer
  t3 = entry self 3 (now 3 0 + 3 * one_sec_in_ns)

  abbrev t4 : Timer
  t4 = entry self 4 (now 2 0 + 4 * one_sec_in_ns)

  sets_0 : Makes (do_set_timer (now 1) (some self) 0 (5 * one_sec_in_ns)) [] (t0 ∷ [])
  unfolding emplace_date
  sets_0 = do_set_timer-Makes (now 1) self 0 (5 * one_sec_in_ns) [] (t0 ∷ []) refl refl

  sets_4 : Makes (do_set_timer (now 2) (some self) 4 (4 * one_sec_in_ns)) (t0 ∷ []) (t4 ∷ t0 ∷ [])
  unfolding emplace_date
  sets_4 =
      do_set_timer-Makes (now 2) self 4 (4 * one_sec_in_ns) (t0 ∷ []) (t4 ∷ t0 ∷ [])
        (ground (arith, close 1 (omega arith), close 2 (omega arith)))
        (ground (arith, close 1 (omega arith), close 2 (omega arith)))

  sets_3 :
      Makes
        (do_set_timer (now 3) (some self) 3 (3 * one_sec_in_ns))
        (t4 ∷ t0 ∷ [])
        (t3 ∷ t4 ∷ t0 ∷ [])
  unfolding emplace_date
  sets_3 =
      do_set_timer-Makes (now 3) self 3 (3 * one_sec_in_ns) (t4 ∷ t0 ∷ []) (t3 ∷ t4 ∷ t0 ∷ [])
        (ground (arith, close 1 (omega arith), close 2 (omega arith), close 3 (omega arith)))
        (ground (arith, close 2 (omega arith), close 3 (omega arith)))

  sets_1 :
      Makes
        (do_set_timer (now 4) (some self) 1 (1 * one_sec_in_ns))
        (t3 ∷ t4 ∷ t0 ∷ [])
        (t1 ∷ t3 ∷ t4 ∷ t0 ∷ [])
  unfolding emplace_date
  sets_1 =
      do_set_timer-Makes (now 4) self 1 (1 * one_sec_in_ns) (t3 ∷ t4 ∷ t0 ∷ [])
        (t1 ∷ t3 ∷ t4 ∷ t0 ∷ [])
        (ground (
          arith,
          close 1 (omega arith),
          close 2 (omega arith),
          close 3 (omega arith),
          close 4 (omega arith),
        ))
        (ground (arith, close 3 (omega arith), close 4 (omega arith)))

  sets_2 :
      Makes
        (do_set_timer (now 5) (some self) 2 (2 * one_sec_in_ns))
        (t1 ∷ t3 ∷ t4 ∷ t0 ∷ [])
        (t1 ∷ t2 ∷ t3 ∷ t4 ∷ t0 ∷ [])
  unfolding emplace_date
  sets_2 =
      do_set_timer-Makes (now 5) self 2 (2 * one_sec_in_ns) (t1 ∷ t3 ∷ t4 ∷ t0 ∷ [])
        (t1 ∷ t2 ∷ t3 ∷ t4 ∷ t0 ∷ [])
        (ground (
          arith,
          close 1 (omega arith),
          close 2 (omega arith),
          close 3 (omega arith),
          close 4 (omega arith),
          close 5 (omega arith),
        ))
        (ground (arith, close 3 (omega arith), close 4 (omega arith), close 5 (omega arith)))

  set_timers-Makes : Makes (set_timers now self) [] (last_four now self)
  unfolding set_timers
  set_timers-Makes = Makes->>= (do_cancel_timer-Makes (now 0) self 0 [] [] refl) (
      Makes->>= sets_0 (
        Makes->>= sets_4 (
          Makes->>= sets_3 (
            Makes->>= sets_1 (
              Makes->>= sets_2 (
                do_cancel_timer-Makes (now 6) self 1 (t1 ∷ t2 ∷ t3 ∷ t4 ∷ t0 ∷ [])
                  (last_four now self) (ground arith)))))))

is_idle-empty :
    (e' e : Engine)
    → Timed e'
    → e'.timers.times_by_date ≡ []
    → e'.event_hash ≡ e.event_hash
    → is_idle 0 e' ≡ is_empty e.event_hash
unfolding is_idle start_event
is_idle-empty e' e g none_left hash =
    let idle : e'.timer_event ≡ none = ground (arith, g.armed, none_left) in
    rw (hash, idle) (ground arith)

-- Where setTimers of an ExitTimer is called in a sound engine without timers, and reads the clock less than a second
-- apart, no assertion traps, the timers 2, 3, 4 and 0 are left; and when the kernel's timer has run out
-- four times, their events have been queued, in this order and once, no timer is left, and a worker that
-- finds no other active then stops the engine exactly where it has no socket.
pub set_timers_in_order :
    (now : ℕ → ℕ → ℕ) (start self : ℕ) (nows : List (ℕ → ℕ)) (e : Engine)
    → Sound e
    → e.timers.times_by_date ≡ []
    → WithinSecond start now
    → length nows ≡ 4
    → (e1 : Engine) × (e2 : Engine) × (set_timers now self e ≡ some e1)
      × (e1.timers.times_by_date ≡ last_four now self)
      × (expire_all nows e1 ≡ some e2)
      × (e2.event_queue
          ≡ e.event_queue
            ++ call_owner self 2 ∷ call_owner self 3 ∷ call_owner self 4 ∷ call_owner self 0 ∷ [])
      × (e2.timers.times_by_date ≡ [])
      × (is_idle 0 e2 ≡ is_empty e.event_hash)
set_timers_in_order now start self nows e s dates close four =
    let (e1, made, s1, dates1, queue1, hash1) = set_timers-Makes now start self close e s dates in
    let (e2, run, queue2, none_left, g2, hash2) =
      expire_all-events nows e1 (last_four now self) s1.1 dates1 four in
    (
      e1,
      e2,
      made,
      dates1,
      run,
      queue2 ∙ ap (λ q. q ++ events_of (last_four now self)) queue1,
      none_left,
      is_idle-empty e2 e g2 none_left (hash2 ∙ hash1),
    )
