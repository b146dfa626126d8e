-- ===== src/Counters.antt =====
-- src/counters.cpp and src/counters.hpp: what a stream has received and sent. The counts are kept
-- unbounded: 2 ^ 63 bytes are out of a connection's reach.
use epoller.Prelude.{ℕ, ◌+◌, ltb, if◌then◌else◌}

pub record Counters : Type 0 where
  pub last_egress : ℕ
  pub last_ingress : ℕ
  pub ingress : ℕ
  pub egress : ℕ

-- notifyIngress at the time `now`.
unfoldable pub notify_ingress : ℕ → ℕ → Counters → Counters
notify_ingress now count c =
    if ltb 0 count then record c { last_ingress = now; ingress = c.ingress + count } else c

-- notifyEgress at the time `now`.
unfoldable pub notify_egress : ℕ → ℕ → Counters → Counters
notify_egress now count c =
    if ltb 0 count then record c { last_egress = now; egress = c.egress + count } else c
