-- ===== src/Timers/Trigger.antt =====
-- src/timers.cpp: which event is armed after any history of calls, and for when.
use epoller.Prelude.{
  ℕ, ◌≡◌, refl, inl, inr, not, List, [], ◌∷◌, ◌==◌, arith, Option, none, some, ◌>>=◌, dec_lt,
  >>=-eq-some, List-cases,
}
use epoller.Timers.Defs.{
  Timer, Timers, Done, ArmCall, arm, disarm, set_timer, cancel_timer, handle_timer_expired,
  cancel_all_timers, set_trigger, retrigger, start_event,
}
use epoller.Timers.Index.{Inv, keep}
use epoller.Timers.Set.{set_timer-Inv, set_timer_traps_iff, clashes}
use epoller.Timers.Cancel.{cancel_timer-Inv, handle_timer_expired-Inv, cancel_all_timers-Inv}

-- The event that the engine has armed: the owner and the event of the last call.
abbrev pub Armed : Type 0
Armed = Option (ℕ × ℕ)

unfoldable pub after_call : Option ArmCall → Armed → Armed
after_call none armed = armed
after_call (some (arm owner id wait)) armed = some (owner, id)
after_call (some disarm) armed = none

-- The calls that the engine makes.
pub data Call : Type 0 where
  sets : Option ℕ → ℕ → ℕ → Call
  cancels : Option ℕ → ℕ → Call
  expires : Call
  cancels_all : ℕ → Call

abbrev done : Armed → Done → Timers × Armed
done armed d = (d.timers, after_call d.call armed)

-- One call on the timers and on what is armed; `none` if an assertion traps.
unfoldable pub perform : (ℕ → ℕ) → Call → Timers × Armed → Option (Timers × Armed)
perform now (sets owner timer timeout) (t, armed) = do
  d ← set_timer now owner timer timeout t
  some (done armed d)
perform now (cancels owner timer) (t, armed) = do
  d ← cancel_timer now owner timer t
  some (done armed d)
perform now expires (t, armed) = do
  (t', call) ← handle_timer_expired now t
  some (t', after_call (some call) armed)
perform now (cancels_all what) (t, armed) = do
  (t', call) ← cancel_all_timers (now 0) what t
  some (t', after_call call armed)

-- A history of calls, each with its readings of the clock.
unfoldable pub perform_all : List ((ℕ → ℕ) × Call) → Timers × Armed → Option (Timers × Armed)
unfolding perform
perform_all [] s = some s
perform_all ((now, call) ∷ calls) s = do s' ← perform now call s; perform_all calls s'

abbrev pub initial : Timers × Armed
initial = (record { times_by_date = []; timers_by_owner = [] }, none)

-- The indexes agree, and the event that is armed is that of the earliest timer, if there is one.
pub record Good (s : Timers × Armed) : Type 0 where
  pub inv : Inv s.0
  pub armed : s.1 ≡ start_event s.0.times_by_date

pub after_call-retrigger :
    (now : ℕ) (old : Armed) (ds : List Timer)
    → after_call (retrigger now old ds) old ≡ start_event ds
unfolding retrigger after_call
after_call-retrigger now none [] = refl
after_call-retrigger now none (d ∷ ds) = refl
after_call-retrigger now (some p) [] = refl
after_call-retrigger now (some p) (d ∷ ds) = ground arith

after_call-set_trigger :
    (now : ℕ) (old : Armed) (ds : List Timer)
    → after_call (some (set_trigger now ds)) old ≡ start_event ds
unfolding set_trigger after_call start_event
after_call-set_trigger now old [] = refl
after_call-set_trigger now old (d ∷ ds) = refl

done-Good :
    (now : ℕ) (t : Timers) (armed : Armed) (d : Done)
    → armed ≡ start_event t.times_by_date
    → Inv d.timers
    → d.call ≡ retrigger now (start_event t.times_by_date) d.timers.times_by_date
    → Good (done armed d)
done-Good now t armed d a v c = record {
  inv = v;
  armed = rw (c, a) (after_call-retrigger now (start_event t.times_by_date) d.timers.times_by_date);
}

perform_sets :
    (now : ℕ → ℕ) (owner timer timeout : ℕ) (t : Timers) (armed : Armed) (s : Timers × Armed)
    → Good (t, armed)
    → perform now (sets (some owner) timer timeout) (t, armed) ≡ some s
    → Good s
unfolding perform
perform_sets now owner timer timeout t armed s g e =
    elim (dec_lt 0 (clashes now owner timer timeout t)) [
      | yes clash ↦
          absurd (ground (arith, (set_timer_traps_iff now owner timer timeout t g.inv).1 clash))
      | no free ↦
          let (d, eq, v, counts, call, added) =
            set_timer-Inv now owner timer timeout t g.inv (omega arith) in
          let e' : done armed d ≡ s = ground (arith, eq) in
          rw (← e') (done-Good (now 3) t armed d g.armed v call)
    ]

perform_cancels :
    (now : ℕ → ℕ) (owner timer : ℕ) (t : Timers) (armed : Armed) (s : Timers × Armed)
    → Good (t, armed)
    → perform now (cancels (some owner) timer) (t, armed) ≡ some s
    → Good s
unfolding perform
perform_cancels now owner timer t armed s g e =
    let (d, eq, v, kept, due, absent, call) = cancel_timer-Inv t g.inv owner timer now in
    let e' : done armed d ≡ s = ground (arith, eq) in
    rw (← e') (done-Good (now 2) t armed d g.armed v call)

perform_expires :
    (now : ℕ → ℕ) (t : Timers) (armed : Armed) (s : Timers × Armed)
    → Good (t, armed)
    → perform now expires (t, armed) ≡ some s
    → Good s
unfolding perform
perform_expires now t armed s g e = elim (List-cases t.times_by_date) [
  | inl none_set ↦ absurd (unfold handle_timer_expired in ground (arith, none_set))
  | inr (first, rest, split) ↦
      let (t', eq, v, left) = handle_timer_expired-Inv t g.inv now first rest split in
      let e' : (t', after_call (some (set_trigger (now 1) rest)) armed) ≡ s = ground (arith, eq) in
      rw (← e') (record { inv = v; armed = rw left (after_call-set_trigger (now 1) armed rest) })
]

perform_cancels_all :
    (now : ℕ → ℕ) (what : ℕ) (t : Timers) (armed : Armed) (s : Timers × Armed)
    → Good (t, armed)
    → perform now (cancels_all what) (t, armed) ≡ some s
    → Good s
unfolding perform
perform_cancels_all now what t armed s g e =
    let (eq, v) = cancel_all_timers-Inv t g.inv (now 0) what in
    let kept = keep (λ x. not (x.owner == what)) t in
    let call = retrigger (now 0) (start_event t.times_by_date) kept.times_by_date in
    let e' : (kept, after_call call armed) ≡ s = ground (arith, eq) in
    rw (← e') (record {
      inv = v;
      armed =
          rw g.armed
            (after_call-retrigger (now 0) (start_event t.times_by_date) kept.times_by_date);
    })

-- A call for an event whose object is gone changes nothing.
perform_gone :
    (now : ℕ → ℕ) (timer timeout : ℕ) (s : Timers × Armed)
    → (perform now (sets none timer timeout) s ≡ some s)
      × (perform now (cancels none timer) s ≡ some s)
unfolding perform set_timer cancel_timer after_call
perform_gone now timer timeout (t, armed) = (refl, refl)

pub perform-Good :
    (now : ℕ → ℕ) (call : Call) (t : Timers) (armed : Armed) (s : Timers × Armed)
    → Good (t, armed)
    → perform now call (t, armed) ≡ some s
    → Good s
perform-Good now (sets (some owner) timer timeout) t armed s g e =
    perform_sets now owner timer timeout t armed s g e
perform-Good now (sets none timer timeout) t armed s g e =
    let e' : (t, armed) ≡ s = ground (arith, e, (perform_gone now timer timeout (t, armed)).0) in
    rw e' at g
perform-Good now (cancels (some owner) timer) t armed s g e =
    perform_cancels now owner timer t armed s g e
perform-Good now (cancels none timer) t armed s g e =
    let e' : (t, armed) ≡ s = ground (arith, e, (perform_gone now timer 0 (t, armed)).1) in
    rw e' at g
perform-Good now expires t armed s g e = perform_expires now t armed s g e
perform-Good now (cancels_all what) t armed s g e = perform_cancels_all now what t armed s g e

perform_all-Good :
    (calls : List ((ℕ → ℕ) × Call)) (s s' : Timers × Armed)
    → Good s
    → perform_all calls s ≡ some s'
    → Good s'
unfolding perform_all
perform_all-Good [] s s' g e = let e' : s ≡ s' = ground arith in rw e' at g
perform_all-Good ((now, call) ∷ calls) (t, armed) s' g e =
    let (q, first, later) = >>=-eq-some (perform now call (t, armed)) (perform_all calls) e in
    perform_all-Good calls q s' (perform-Good now call t armed q g first) later

-- Whatever calls are made from the start, as long as no assertion traps the two indexes agree, and
-- the event that is armed is that of the earliest timer.
pub perform_all-initial :
    (calls : List ((ℕ → ℕ) × Call)) (s : Timers × Armed)
    → perform_all calls initial ≡ some s
    → Good s
unfolding start_event
perform_all-initial calls s = perform_all-Good calls initial s (record {
  inv = record { sorted = tt; same = λ p. refl; once = λ o i. omega arith };
  armed = refl;
})
