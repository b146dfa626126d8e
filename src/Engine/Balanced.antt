-- ===== src/Engine/Balanced.antt =====
-- src/engine.cpp and src/semaphore.cpp: that no event and no worker is lost.
use epoller.Prelude.{
  ℕ, ◌+◌, ◌-◌, ◌≡◌, refl, sym, ap, ◌∙◌, List, [], ◌∷◌, ◌++◌, append_assoc, length, length-append,
  arith, ◌⊎◌, inl, inr, Bool, true, Bool-cases,
}
use epoller.Engine.Defs.{Event}
use epoller.Engine.Workers.{
  Pool, front, pop_front, enqueue, signal_sem, wait_sem, take_event, begin_event, end_event,
  throw_event, nothing_left, after_event, set_bare, Inner, signals, waits, takes, begins, ends,
  throws, tests, inner, enqueues, changes, Reach, start, next,
}

-- Every queued event has a count of the semaphore, a signal that is still to come or a worker that has
-- been let through of its own; no worker is lost; the workers take what was queued, in its order;
-- and none has found that nothing is left where the engine was never bare.
pub record Balanced (n : ℕ) (p : Pool) : Type 0 where
  pub served : length p.event_queue ≡ p.sem + p.pending + p.awake
  pub workers : p.idle + p.awake + p.holding + p.running + p.ended + p.left + p.thrown ≡ n
  pub order : p.taken ++ p.event_queue ≡ p.queued
  pub ever : p.bare ≡ true → p.was_bare ≡ true
  pub stays : (p.was_bare ≡ true) ⊎ (p.left ≡ 0)

front-pop_front : (es : List Event) → front es ++ pop_front es ≡ es
unfolding front pop_front
front-pop_front [] = refl
front-pop_front (e ∷ es) = refl

length-pop_front : (es : List Event) → length (pop_front es) ≡ length es - 1
unfolding pop_front
length-pop_front [] = refl
length-pop_front (e ∷ es) = omega arith

Inner-Balanced : (n : ℕ) (p q : Pool) → Balanced n p → Inner p q → Balanced n q
unfolding signal_sem wait_sem take_event begin_event end_event throw_event after_event
Inner-Balanced n p q b (signals h) = record {
  served = omega (arith, b.served);
  workers = b.workers;
  order = b.order;
  ever = b.ever;
  stays = b.stays;
}
Inner-Balanced n p q b (waits h k) = record {
  served = omega (arith, b.served);
  workers = omega (arith, b.workers);
  order = b.order;
  ever = b.ever;
  stays = b.stays;
}
Inner-Balanced n p q b (takes h) = record {
  served = omega (arith, b.served, length-pop_front p.event_queue);
  workers = omega (arith, b.workers);
  order =
      append_assoc p.taken (front p.event_queue) (pop_front p.event_queue)
      ∙ ap (λ es. p.taken ++ es) (front-pop_front p.event_queue)
      ∙ b.order;
  ever = b.ever;
  stays = b.stays;
}
Inner-Balanced n p q b (begins h) = record {
  served = b.served;
  workers = omega (arith, b.workers);
  order = b.order;
  ever = b.ever;
  stays = b.stays;
}
Inner-Balanced n p q b (ends h) = record {
  served = b.served;
  workers = omega (arith, b.workers);
  order = b.order;
  ever = b.ever;
  stays = b.stays;
}
Inner-Balanced n p q b (throws h) = record {
  served = b.served;
  workers = omega (arith, b.workers);
  order = b.order;
  ever = b.ever;
  stays = b.stays;
}
Inner-Balanced n p q b (tests h) = elim (Bool-cases (nothing_left p)) [
  | inl nothing ↦ rw nothing (record {
    served = b.served;
    workers = omega (arith, b.workers);
    order = b.order;
    ever = b.ever;
    stays = inl (b.ever (ground (arith, nothing)));
  })
  | inr something ↦ rw something (record {
    served = b.served;
    workers = omega (arith, b.workers);
    order = b.order;
    ever = b.ever;
    stays = b.stays;
  })
]

enqueue-Balanced : (n : ℕ) (e : Event) (p : Pool) → Balanced n p → Balanced n (enqueue e p)
unfolding enqueue
enqueue-Balanced n e p b = record {
  served = omega (arith, b.served, length-append p.event_queue (e ∷ []));
  workers = b.workers;
  order = sym (append_assoc p.taken p.event_queue (e ∷ [])) ∙ ap (λ es. es ++ e ∷ []) b.order;
  ever = b.ever;
  stays = b.stays;
}

set_bare-Balanced : (n : ℕ) (bare : Bool) (p : Pool) → Balanced n p → Balanced n (set_bare bare p)
unfolding set_bare
set_bare-Balanced n bare p b = record {
  served = b.served;
  workers = b.workers;
  order = b.order;
  ever = λ h. ground (arith, h, Bool-cases p.was_bare);
  stays = elim b.stays [ inl was ↦ inl (ground (arith, was)) | inr none_left ↦ inr none_left ];
}

-- However the threads interleave, every queued event is accounted for, and the workers take the events
-- in the order in which they were queued, each of them once.
pub reach-Balanced : (n : ℕ) (p : Pool) → Reach n p → Balanced n p
reach-Balanced n p (start b) = record {
  served = refl;
  workers = omega arith;
  order = refl;
  ever = λ h. h;
  stays = inr refl;
}
reach-Balanced n q (next {p} r (inner i)) = Inner-Balanced n p q (reach-Balanced n p r) i
reach-Balanced n q (next {p} r (enqueues e)) = enqueue-Balanced n e p (reach-Balanced n p r)
reach-Balanced n q (next {p} r (changes b)) = set_bare-Balanced n b p (reach-Balanced n p r)
