-- ===== src/Engine/Ends.antt =====
-- src/engine.cpp: what doEpoll handles before it ends, and how stopWorkers ends.
use epoller.Prelude.{
  ℕ, ◌≡◌, refl, ap, ◌∙◌, inl, inr, Bool, true, false, ◌||◌, List, [], ◌∷◌, ◌++◌, ◌==◌,
  if◌then◌else◌, some, ◌>>=◌, arith, Bool-cases, Option-cases,
}
use epoller.Engine.Defs.{Engine, new_event, handle_timer_expired, set_timer_trigger}
use epoller.Engine.Expiry.{handle_timer_expired-Timed}
use epoller.Engine.Sound.{Sound, expire-Sound, has_event-Sound}
use epoller.Engine.Loop.{
  Ready, dispatch, do_signal_handler, Wait, ready, again, failed, Round, do_epoll,
}

-- What the rounds hand to the engine: the events of every round before the first one in whose wait a
-- signal comes, up to and with the first one in whose work one comes.
abbrev pub handled : List Round → List Ready
handled [] = []
handled (r ∷ rounds) = if r.in_wait then [] else elim r.wait [
  | ready events ↦ events ++ (if r.in_work then [] else handled rounds)
  | again ↦ if r.in_work then [] else handled rounds
  | failed ↦ []
]

abbrev pub stops : List Round → Bool
stops [] = false
stops (r ∷ rounds) = r.in_wait || r.in_work || stops rounds

abbrev is_failed : Wait → Bool
is_failed (ready events) = false
is_failed again = false
is_failed failed = true

-- No call of epoll_wait fails.
abbrev pub NoFailure : List Round → Type 0
NoFailure [] = Unit {0}
NoFailure (r ∷ rounds) = (is_failed r.wait ≡ false) × NoFailure rounds

handle_timer_expired-Sound :
    (now : ℕ → ℕ) (e : Engine)
    → Sound e
    → (e' : Engine) × (handle_timer_expired now e ≡ some e') × Sound e'
handle_timer_expired-Sound now e s = elim (handle_timer_expired-Timed now e s.1) [
  | inl (empty, idle) ↦ (e, idle, s)
  | inr (first, rest, e', split, made, queued, signalled, left, timed) ↦
      (e', made, expire-Sound now e e' s made)
]

expire-stopping :
    (now : ℕ → ℕ) (e e' : Engine) → handle_timer_expired now e ≡ some e' → e'.stopping ≡ e.stopping
unfolding handle_timer_expired set_timer_trigger
expire-stopping now e e' h = ground (arith, h)

new_event-stopping : (id events : ℕ) (e : Engine) → (new_event id events e).stopping ≡ e.stopping
unfolding new_event
new_event-stopping id events e = ground arith

-- The events of a round are all handled, and nothing traps.
dispatch-Sound :
    (events : List Ready) (e : Engine)
    → Sound e
    → (e' : Engine) × (dispatch events e ≡ some e') × Sound e' × (e'.stopping ≡ e.stopping)
unfolding dispatch
dispatch-Sound [] e s = (e, refl, s, refl)
dispatch-Sound (r ∷ more) e s = elim (Bool-cases (r.ev_id == 0)) [
  | inl timer ↦
      let (e', made, s') = handle_timer_expired-Sound r.now e s in
      let (e'', rest, s'', same) = dispatch-Sound more e' s' in
      (e'', ground (arith, timer, made, rest), s'', same ∙ expire-stopping r.now e e' made)
  | inr socket ↦
      let (e'', rest, s'', same) =
        dispatch-Sound more (new_event r.ev_id r.events e) (has_event-Sound r.ev_id r.events e s) in
      (e'', ground (arith, socket, rest), s'', same ∙ new_event-stopping r.ev_id r.events e)
]

dispatch-append :
    (xs ys : List Ready) (e : Engine) → dispatch (xs ++ ys) e ≡ (dispatch xs e >>= dispatch ys)
unfolding dispatch
dispatch-append [] ys e = refl
dispatch-append (r ∷ xs) ys e = elim (Bool-cases (r.ev_id == 0)) [
  | inl timer ↦ elim (Option-cases (handle_timer_expired r.now e)) [
    | inl trap ↦ ground (arith, timer, trap)
    | inr (e', made) ↦ ground (arith, timer, made, dispatch-append xs ys e')
  ]
  | inr socket ↦ ground (arith, socket, dispatch-append xs ys (new_event r.ev_id r.events e))
]

stopped-Sound : (e : Engine) → Sound e → Sound (record e { stopping = true })
stopped-Sound e (r, g) = (
  record { once = r.once; ids = r.ids; given = r.given },
  record { inv = g.inv; armed = g.armed },
)

going_lem : (e : Engine) → e.stopping ≡ false → e ≡ record e { stopping = false }
going_lem e h = ap (λ b. record e { stopping = b }) h

do_epoll_stopped :
    (rounds : List Round) (e : Engine) → e.stopping ≡ true → do_epoll rounds e ≡ some e
unfolding do_epoll
do_epoll_stopped [] e h = refl
do_epoll_stopped (r ∷ rounds) e h = ground (arith, h)

abbrev Runs : List Round → Engine → Type 0
Runs rounds e =
    (e' : Engine) × (do_epoll rounds e ≡ some e')
    × Sound e'
    × (dispatch (handled rounds) e ≡ some (record e' { stopping = false }))
    × (e'.stopping ≡ stops rounds)

-- One round, and then the others.
round-Runs :
    (w : Wait) (in_wait in_work : Bool) (rounds : List Round) (e : Engine)
    → ((e : Engine) → Sound e → e.stopping ≡ false → Runs rounds e)
    → Sound e
    → e.stopping ≡ false
    → is_failed w ≡ false
    → Runs (record { wait = w; in_wait = in_wait; in_work = in_work } ∷ rounds) e
unfolding do_epoll do_signal_handler dispatch
round-Runs w true in_work rounds e later s going ok = (
  record e { stopping = true },
  ground (arith, going),
  stopped-Sound e s,
  ap some (going_lem e going),
  refl,
)
round-Runs (ready events) false false rounds e later s going ok =
    let (e', made, s', same) = dispatch-Sound events e s in
    let (e'', rest, s'', all, stop) = later e' s' (same ∙ going) in
    (
      e'',
      ground (arith, going, made, rest),
      s'',
      dispatch-append events (handled rounds) e ∙ ground (arith, made, all),
      stop,
    )
round-Runs (ready events) false true rounds e later s going ok =
    let (e', made, s', same) = dispatch-Sound events e s in
    let end : Engine = record e' { stopping = true } in
    (
      end,
      ground (arith, going, same, made, do_epoll_stopped rounds end refl),
      stopped-Sound e' s',
      dispatch-append events [] e ∙ ground (arith, made, going_lem e' (same ∙ going)),
      refl,
    )
round-Runs again false false rounds e later s going ok =
    let (e'', rest, s'', all, stop) = later e s going in
    (e'', ground (arith, going, rest), s'', all, stop)
round-Runs again false true rounds e later s going ok =
    let end : Engine = record e { stopping = true } in
    (
      end,
      ground (arith, going, do_epoll_stopped rounds end refl),
      stopped-Sound e s,
      ap some (going_lem e going),
      refl,
    )
round-Runs failed false in_work rounds e later s going ok = cc

-- Where no call of epoll_wait fails, doEpoll traps nowhere and keeps the engine's invariant. It does what
-- it does to the events that its rounds hand over, one after the other: those of every round before the
-- first one in whose wait a signal comes, up to and with the first one in whose work one comes; and it
-- has ended exactly when a signal has come.
pub do_epoll_runs :
    (rounds : List Round) (e : Engine)
    → Sound e
    → e.stopping ≡ false
    → NoFailure rounds
    → (e' : Engine) × (do_epoll rounds e ≡ some e')
      × Sound e'
      × (dispatch (handled rounds) e ≡ some (record e' { stopping = false }))
      × (e'.stopping ≡ stops rounds)
unfolding do_epoll dispatch
do_epoll_runs [] e s going ok = (e, refl, s, ap some (going_lem e going), going)
do_epoll_runs (r ∷ rounds) e s going ok =
    round-Runs r.wait r.in_wait r.in_work rounds e
      (λ e' s' going'. do_epoll_runs rounds e' s' going' ok.1) s going ok.0
