-- ===== src/Logger/Threads.antt =====
-- src/logger.cpp: the numbers that the logger gives to threads.
use epoller.Prelude.{
  ℕ, suc, ◌+◌, ◌≡◌, ◌≤◌, ◌⊎◌, refl, ap, ◌∙◌, inl, inr, List, [], ◌∷◌, ◌++◌, ◌==◌, Option, none,
  some, length, arith, Bool-cases, count_if, get_elem?,
}
use epoller.Prelude.Count.{count_if-append}
use epoller.Logger.{find_tid, number_thread}

-- No thread has two numbers.
abbrev pub AreDistinct : List ℕ → Type 0
AreDistinct ids = (id : ℕ) → count_if (λ x. x == id) ids ≤ 1

-- The loop finds an entry of a thread, where it has one.
find_tid_lem :
    (id : ℕ) (ids : List ℕ) (i : ℕ) (tid : Option ℕ)
    → ((count_if (λ x. x == id) ids ≡ 0) × (find_tid id ids i tid ≡ tid))
      ⊎ ((j : ℕ) × (find_tid id ids i tid ≡ some (i + j)) × (get_elem? ids j ≡ some id))
unfolding find_tid
find_tid_lem id [] i tid = inl (refl, refl)
find_tid_lem id (x ∷ ids) i tid = elim (Bool-cases (x == id)) [
  | inl here ↦ elim (find_tid_lem id ids (i + 1) (some i)) [
    | inl (gone, end) ↦
        let at : i ≡ i + 0 = omega arith in
        let same : x ≡ id = ground (arith, here) in
        inr (0, rw here (end ∙ ap some at), ap some same)
    | inr (j, end, there) ↦
        let at : i + 1 + j ≡ i + suc j = omega arith in
        inr (suc j, rw here (end ∙ ap some at), there)
  ]
  | inr other ↦ elim (find_tid_lem id ids (i + 1) tid) [
    | inl (gone, end) ↦ inl (ground (arith, other, gone), rw other end)
    | inr (j, end, there) ↦
        let at : i + 1 + j ≡ i + suc j = omega arith in
        inr (suc j, rw other (end ∙ ap some at), there)
  ]
]

AreDistinct-append :
    (id : ℕ) (ids : List ℕ)
    → count_if (λ x. x == id) ids ≡ 0
    → AreDistinct ids
    → AreDistinct (ids ++ id ∷ [])
AreDistinct-append id ids new distinct other =
    ground (arith, count_if-append (λ x. x == other) ids (id ∷ []), new, distinct other)

get_elem?-last : (ids : List ℕ) (id : ℕ) → get_elem? (ids ++ id ∷ []) (length ids) ≡ some id
get_elem?-last [] id = refl
get_elem?-last (x ∷ ids) id = get_elem?-last ids id

number_thread_new :
    (id : ℕ) (ids : List ℕ)
    → find_tid id ids 0 none ≡ none
    → number_thread id ids ≡ (length ids, ids ++ id ∷ [])
unfolding number_thread
number_thread_new id ids e = ground (arith, e)

number_thread_old :
    (id : ℕ) (ids : List ℕ) (i : ℕ)
    → find_tid id ids 0 none ≡ some i
    → number_thread id ids ≡ (i, ids)
unfolding number_thread
number_thread_old id ids i e = ground (arith, e)

-- A thread that has a number keeps it, and another one gets the next number: the numbers of the other
-- threads stay, no thread has two, and the number that is written is that of the thread.
number_thread-AreDistinct :
    (id : ℕ) (ids : List ℕ)
    → AreDistinct ids
    → let (tid, ids') = number_thread id ids in
      AreDistinct ids'
      × (get_elem? ids' tid ≡ some id)
      × ((ids' ≡ ids) ⊎ ((count_if (λ x. x == id) ids ≡ 0) × (ids' ≡ ids ++ id ∷ [])))
number_thread-AreDistinct id ids distinct = elim (find_tid_lem id ids 0 none) [
  | inl (new, end) ↦
      rw (number_thread_new id ids end)
        (AreDistinct-append id ids new distinct, get_elem?-last ids id, inr (new, refl))
  | inr (j, end, there) ↦
      let at : 0 + j ≡ j = omega arith in
      rw (number_thread_old id ids j (end ∙ ap some at)) (distinct, there, inl refl)
]
