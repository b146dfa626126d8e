-- ===== src/Engine/Workforce.antt =====
-- src/engine.cpp: the passes of stopWorkers, and the end of doInit.
use epoller.Prelude.{
  ℕ, zero, suc, ◌+◌, ◌*◌, ◌≡◌, ◌⊎◌, ◌<◌, refl, ap, inl, inr, Bool, true, false, List, ltb, none,
  some, arith, Bool-cases,
}
use epoller.Engine.Loop.{alive, stop_passes, stop_workers}

-- The signals of the passes from `k` on, one for each worker that has not exited.
abbrev pub signals : (ℕ → List Bool) → ℕ → ℕ → ℕ
signals exited k zero = 0
signals exited k (suc n) = alive (exited k) + signals exited (k + 1) n

-- The passes end at the first one that finds every worker gone.
abbrev Ends : (ℕ → List Bool) → ℕ → ℕ → ℕ → Type 0
Ends exited k i sem =
    (n : ℕ) × (n < i)
    × (alive (exited (k + n)) ≡ 0)
    × (stop_passes exited i k true sem ≡ (false, sem + signals exited k n))

abbrev Lasts : (ℕ → List Bool) → ℕ → ℕ → ℕ → Type 0
Lasts exited k i sem =
    ((n : ℕ) → n < i → 0 < alive (exited (k + n)))
    × (stop_passes exited i k true sem ≡ (true, sem + signals exited k i))

stop_passes-false :
    (exited : ℕ → List Bool) (i k sem : ℕ) → stop_passes exited i k false sem ≡ (false, sem)
unfolding stop_passes
stop_passes-false exited zero k sem = refl
stop_passes-false exited (suc i) k sem = refl

left_later :
    (exited : ℕ → List Bool) (i k : ℕ)
    → 0 < alive (exited k)
    → ((n : ℕ) → n < i → 0 < alive (exited (k + 1 + n)))
    → (n : ℕ) → n < suc i
    → 0 < alive (exited (k + n))
left_later exited i k first later zero h = let at : k + 0 ≡ k = omega arith in rw at first
left_later exited i k first later (suc n) h =
    let at : k + suc n ≡ k + 1 + n = omega arith in rw at (later n (omega (arith, h)))

stop_passes-cases :
    (exited : ℕ → List Bool) (i k sem : ℕ) → Ends exited k i sem ⊎ Lasts exited k i sem
unfolding stop_passes
stop_passes-cases exited zero k sem =
    inr (λ n h. absurd (omega (arith, h)), ap (λ s. (true, s)) (omega arith))
stop_passes-cases exited (suc i) k sem = elim (Bool-cases (ltb 0 (alive (exited k)))) [
  | inr gone ↦
      let none_left : alive (exited k) ≡ 0 = ground (arith, gone) in
      let at : k + 0 ≡ k = omega arith in
      inl (
        0,
        omega arith,
        rw at none_left,
        ground
            (arith, gone, none_left, stop_passes-false exited i (k + 1) (sem + alive (exited k))),
      )
  | inl some_left ↦
      let first : 0 < alive (exited k) = ground (arith, some_left) in
      elim (stop_passes-cases exited i (k + 1) (sem + alive (exited k))) [
        | inl (n, before, all_gone, end) ↦
            let at : k + suc n ≡ k + 1 + n = omega arith in
            inl (suc n, omega (arith, before), rw at all_gone, ground (arith, some_left, end))
        | inr (left, end) ↦ inr (left_later exited i k first left, ground (arith, some_left, end))
      ]
]

-- stopWorkers makes 1024 passes for each processor at most. Where a pass finds every worker gone it ends
-- there, having signalled once for each worker that an earlier pass found; its assertion traps exactly
-- where each of the passes still finds a worker.
pub stop_workers_ends :
    (exited : ℕ → List Bool) (cpus sem : ℕ)
    → ((n : ℕ) × (n < 1024 * cpus)
        × (alive (exited n) ≡ 0)
        × (stop_workers exited cpus sem ≡ some (sem + signals exited 0 n)))
      ⊎ (((n : ℕ) → n < 1024 * cpus → 0 < alive (exited n)) × (stop_workers exited cpus sem ≡ none))
unfolding stop_workers
stop_workers_ends exited cpus sem = elim (stop_passes-cases exited (1024 * cpus) 0 sem) [
  | inl (n, before, gone, end) ↦
      let at : 0 + n ≡ n = omega arith in inl (n, before, rw at at gone, rw end)
  | inr (left, end) ↦ inr (λ n h. let at : 0 + n ≡ n = omega arith in rw at at (left n h), rw end)
]
