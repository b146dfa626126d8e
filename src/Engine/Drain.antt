-- ===== src/Engine/Drain.antt =====
-- src/engine.cpp and src/semaphore.cpp: how the workers come to the end of the queue.
use epoller.Prelude.{ℕ, suc, ◌+◌, ◌*◌, Bool}
use epoller.Engine.Workers.{Pool, Inner, set_bare}
use epoller.Engine.Balanced.{Balanced}

-- A run of `k` steps in which nothing more is queued, while sockets and timers come and go.
pub data Run : ℕ → Pool → Pool → Type 0 where
  done : {p : Pool} → Run 0 p p
  step : {k : ℕ} {p q r : Pool} → Inner p q → Run k q r → Run (suc k) p r
  change : {k : ℕ} {p r : Pool} (b : Bool) → Run k (set_bare b p) r → Run k p r

-- The steps that a pool has left, at most.
abbrev pub work : Pool → ℕ
work p = 6 * p.pending + 5 * p.sem + 4 * p.awake + 3 * p.holding + 2 * p.running + p.ended
