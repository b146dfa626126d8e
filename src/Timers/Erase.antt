-- ===== src/Timers/Erase.antt =====
-- src/timers.cpp: the loops that erase from a map in order of time.
use epoller.Prelude.{
  ℕ, ◌≤◌, ◌<◌, ◌≡◌, refl, sym, ◌∙◌, inl, inr, Bool, not, ◌&&◌, List, [], ◌∷◌, ◌==◌, ltb, arith,
  keep_if, count_if,
}
use epoller.Prelude.Count.{In, keep_if-keep_if, keep_if_ext, keep_if_none, keep_if_all}
use epoller.Timers.Defs.{Timer, is_timer, erase_date, erase_dates, erase_timer, erase_all}

-- Every timer is due after `n`.
abbrev pub After : ℕ → List Timer → Type 0
After n [] = Unit {0}
After n (d ∷ ds) = (n < d.due) × After n ds

-- The order of a map: the times rise strictly.
abbrev pub IsSorted : List Timer → Type 0
IsSorted [] = Unit {0}
IsSorted (d ∷ ds) = After d.due ds × IsSorted ds

pub After-mono : {m n : ℕ} (ds : List Timer) → m ≤ n → After n ds → After m ds
After-mono [] h a = tt
After-mono (d ∷ ds) h a = (omega arith, After-mono ds h a.1)

After-keep_if : (n : ℕ) (p : Timer → Bool) (ds : List Timer) → After n ds → After n (keep_if p ds)
After-keep_if n p [] h = tt
After-keep_if n p (d ∷ ds) h = ground (arith, After-keep_if n p ds h.1)

pub IsSorted-keep_if : (p : Timer → Bool) (ds : List Timer) → IsSorted ds → IsSorted (keep_if p ds)
IsSorted-keep_if p [] h = tt
IsSorted-keep_if p (d ∷ ds) h =
    ground (arith, IsSorted-keep_if p ds h.1, After-keep_if d.due p ds h.0)

After-In : (n : ℕ) (ds : List Timer) (e : Timer) → After n ds → In e ds → n < e.due
After-In n [] e h i = absurd i
After-In n (d ∷ ds) e h (inl q) = ground arith
After-In n (d ∷ ds) e h (inr i) = After-In n ds e h.1 i

-- In a map a time has one entry.
pub IsSorted-unique :
    (ds : List Timer) (e e' : Timer) → IsSorted ds → In e ds → In e' ds → e.due ≡ e'.due → e ≡ e'
IsSorted-unique [] e e' h i j q = absurd i
IsSorted-unique (d ∷ ds) e e' h (inl p) (inl r) q = p ∙ sym r
IsSorted-unique (d ∷ ds) e e' h (inl p) (inr j) q =
    absurd (ground (arith, After-In d.due ds e' h.0 j))
IsSorted-unique (d ∷ ds) e e' h (inr i) (inl r) q =
    absurd (ground (arith, After-In d.due ds e h.0 i))
IsSorted-unique (d ∷ ds) e e' h (inr i) (inr j) q = IsSorted-unique ds e e' h.1 i j q

abbrev pub due_at : ℕ → ℕ → Timer → Bool
due_at tp timer d = d.due == tp && d.id == timer

keep_if-After :
    (tp timer n : ℕ) (ds : List Timer)
    → tp ≤ n
    → After n ds
    → keep_if (λ d. not (due_at tp timer d)) ds ≡ ds
keep_if-After tp timer n [] q h = refl
keep_if-After tp timer n (d ∷ ds) q h = ground (arith, keep_if-After tp timer n ds q h.1)

erase_date-keep_if :
    (tp timer : ℕ) (ds : List Timer)
    → IsSorted ds
    → erase_date tp timer ds ≡ keep_if (λ d. not (due_at tp timer d)) ds
unfolding erase_date
erase_date-keep_if tp timer [] h = refl
erase_date-keep_if tp timer (d ∷ ds) h =
    ground (arith, erase_date-keep_if tp timer ds h.1, keep_if-After tp timer d.due ds)

-- Is the event due at the time of some entry?
abbrev pub any_due : List Timer → ℕ → Bool
any_due range tp = ltb 0 (count_if (λ bo. bo.due == tp) range)

-- The loop of removeTimer.
pub erase_dates-keep_if :
    (timer : ℕ) (range ds : List Timer)
    → IsSorted ds
    → erase_dates timer range ds ≡ keep_if (λ d. not (d.id == timer && any_due range d.due)) ds
unfolding erase_dates
erase_dates-keep_if timer [] ds h = sym (keep_if_all _ ds (λ d. ground arith))
erase_dates-keep_if timer (bo ∷ range) ds h =
    rw
      (
        erase_date-keep_if bo.due timer ds h,
        erase_dates-keep_if timer range (keep_if (λ d. not (due_at bo.due timer d)) ds)
            (IsSorted-keep_if _ ds h),
        keep_if-keep_if,
      )
      (keep_if_ext _ _ ds (λ d i. ground arith))

-- Erasing one entry of a timer that has at most one.
pub erase_timer-keep_if :
    (what timer : ℕ) (bs : List Timer)
    → count_if (is_timer what timer) bs ≤ 1
    → erase_timer what timer bs ≡ keep_if (λ t. not (is_timer what timer t)) bs
unfolding erase_timer
erase_timer-keep_if what timer [] h = refl
erase_timer-keep_if what timer (bo ∷ bs) h =
    ground (arith, erase_timer-keep_if what timer bs, keep_if_none (is_timer what timer) bs)

-- The loop of cancelAllTimers.
pub erase_all-keep_if :
    (range ds : List Timer) → erase_all range ds ≡ keep_if (λ d. not (any_due range d.due)) ds
unfolding erase_all
erase_all-keep_if [] ds = sym (keep_if_all (λ d. not (any_due [] d.due)) ds (λ d. refl))
erase_all-keep_if (bo ∷ range) ds =
    rw (erase_all-keep_if range (keep_if (λ d. not (d.due == bo.due)) ds), keep_if-keep_if)
      (keep_if_ext _ _ ds (λ d i. ground arith))
