-- ===== src/Engine/Workers.antt =====
-- src/engine.cpp and src/semaphore.cpp: the workers and those who queue events, as they interleave. A
-- step is a part of newEvent, doRunAsync or worker that a lock covers, or a part between two of them,
-- while `stopping` is not set. A Semaphore's wait returns when its count is above zero.
use epoller.Prelude.{ℕ, ◌+◌, ◌-◌, ◌<◌, List, [], ◌∷◌, ◌++◌, Bool, ◌&&◌, ◌||◌, ◌==◌, if◌then◌else◌}
use epoller.Engine.Defs.{Event}

-- `pending` threads have queued an event and not signalled it yet; of the workers `idle` are about to
-- wait or wait, `awake` have been let through, `holding` have taken what they found, `running` run it,
-- counted in activeCount, and `ended` have run it and are about to test whether the engine has anything
-- left; `left` have found that it has not, asked it to stop and left, and `thrown` have left with an
-- exception, which leaves them counted. `bare` is whether the engine has neither a socket nor a timer that
-- is armed. `queued` is all that was ever queued, `taken` all that workers took, each in its order, and
-- `was_bare` whether the engine was ever bare; the code keeps none of them.
pub record Pool : Type 0 where
  pub event_queue : List Event
  pub sem : ℕ
  pub pending : ℕ
  pub idle : ℕ
  pub awake : ℕ
  pub holding : ℕ
  pub running : ℕ
  pub ended : ℕ
  pub left : ℕ
  pub thrown : ℕ
  pub bare : Bool
  pub queued : List Event
  pub taken : List Event
  pub was_bare : Bool

abbrev pub active_count : Pool → ℕ
active_count p = p.running + p.thrown

-- What a worker finds: the front of the queue, or nothing, where it runs the empty event.
unfoldable pub front : List Event → List Event
front [] = []
front (e ∷ es) = e ∷ []

unfoldable pub pop_front : List Event → List Event
pop_front [] = []
pop_front (e ∷ es) = es

-- eventQueue.push_back, under eqLock.
unfoldable pub enqueue : Event → Pool → Pool
enqueue e p = record p {
  event_queue = p.event_queue ++ e ∷ [];
  pending = p.pending + 1;
  queued = p.queued ++ e ∷ [];
}

-- Semaphore::signal.
unfoldable pub signal_sem : Pool → Pool
signal_sem p = record p { pending = p.pending - 1; sem = p.sem + 1 }

-- Semaphore::wait, when it returns.
unfoldable pub wait_sem : Pool → Pool
wait_sem p = record p { sem = p.sem - 1; idle = p.idle - 1; awake = p.awake + 1 }

-- A worker under eqLock.
unfoldable pub take_event : Pool → Pool
unfolding front pop_front
take_event p = record p {
  event_queue = pop_front p.event_queue;
  awake = p.awake - 1;
  holding = p.holding + 1;
  taken = p.taken ++ front p.event_queue;
}

-- activeCount++.
unfoldable pub begin_event : Pool → Pool
begin_event p = record p { holding = p.holding - 1; running = p.running + 1 }

-- The event has been run: activeCount--.
unfoldable pub end_event : Pool → Pool
end_event p = record p { running = p.running - 1; ended = p.ended + 1 }

-- The event has thrown: the engine is asked to stop and the worker leaves, with activeCount as it is.
unfoldable pub throw_event : Pool → Pool
throw_event p = record p { running = p.running - 1; thrown = p.thrown + 1 }

-- The test that follows an event.
unfoldable pub nothing_left : Pool → Bool
nothing_left p = p.bare && active_count p == 0

-- A worker whose test fails goes back to wait; one whose test holds asks the engine to stop and leaves.
unfoldable pub after_event : Pool → Pool
unfolding nothing_left
after_event p =
    if nothing_left p
    then record p { ended = p.ended - 1; left = p.left + 1 }
    else record p { ended = p.ended - 1; idle = p.idle + 1 }

-- Sockets and timers come and go.
unfoldable pub set_bare : Bool → Pool → Pool
set_bare b p = record p { bare = b; was_bare = p.was_bare || b }

-- The steps of threads that have begun something.
pub data Inner : Pool → Pool → Type 0 where
  signals : {p : Pool} → 0 < p.pending → Inner p (signal_sem p)
  waits : {p : Pool} → 0 < p.idle → 0 < p.sem → Inner p (wait_sem p)
  takes : {p : Pool} → 0 < p.awake → Inner p (take_event p)
  begins : {p : Pool} → 0 < p.holding → Inner p (begin_event p)
  ends : {p : Pool} → 0 < p.running → Inner p (end_event p)
  throws : {p : Pool} → 0 < p.running → Inner p (throw_event p)
  tests : {p : Pool} → 0 < p.ended → Inner p (after_event p)

pub data Step : Pool → Pool → Type 0 where
  inner : {p q : Pool} → Inner p q → Step p q
  enqueues : {p : Pool} (e : Event) → Step p (enqueue e p)
  changes : {p : Pool} (b : Bool) → Step p (set_bare b p)

-- Any number of steps from the start of `n` workers.
pub data Reach (n : ℕ) : Pool → Type 0 where
  start :
      (b : Bool)
      → Reach n (record {
        event_queue = [];
        sem = 0;
        pending = 0;
        idle = n;
        awake = 0;
        holding = 0;
        running = 0;
        ended = 0;
        left = 0;
        thrown = 0;
        bare = b;
        queued = [];
        taken = [];
        was_bare = b;
      })
  next : {p q : Pool} → Reach n p → Step p q → Reach n q
