-- ===== src/Utils/Flags.antt =====
-- src/utils.cpp: the text that pollEventsToString makes.
use epoller.Prelude.{
  ℕ, zero, suc, ◌≡◌, ◌⊎◌, refl, sym, ◌∙◌, inl, inr, Bool, true, false, List, [], ◌∷◌, ◌++◌, Bytes,
  ltb, if◌then◌else◌, length, arith, append_assoc, append-nil, List-cases,
}
use epoller.Utils.{name_at, poll_loop, poll_events_to_string, bar, empty_text}

-- The names of the flags that are set below a position, from the highest on.
unfoldable pub names : ℕ → ℕ → List Bytes
names zero events = []
names (suc n) events = elim (name_at n events) [
  | [] ↦ names n events
  | c ∷ name ↦ (c ∷ name) ∷ names n events
]

names_none : (n events : ℕ) → name_at n events ≡ [] → names (suc n) events ≡ names n events
unfolding names
names_none n events h = ground (arith, h)

names_some :
    (n events c : ℕ) (name : Bytes)
    → name_at n events ≡ c ∷ name
    → names (suc n) events ≡ (c ∷ name) ∷ names n events
unfolding names
names_some n events c name h = ground (arith, h)

-- Names with bars in front of them.
abbrev pub barred : List Bytes → Bytes
barred [] = []
barred (name ∷ more) = bar ++ (name ++ barred more)

-- Names with bars between them, or what stands for none.
abbrev pub joined : List Bytes → Bytes
joined [] = empty_text
joined (name ∷ more) = name ++ barred more

poll_loop_none :
    (n events : ℕ) (is_first : Bool) (stream : Bytes)
    → name_at n events ≡ []
    → poll_loop (suc n) events is_first stream ≡ poll_loop n events is_first stream
unfolding poll_loop
poll_loop_none n events is_first stream h = ground (arith, h)

poll_loop_some :
    (n events : ℕ) (is_first : Bool) (stream : Bytes) (c : ℕ) (name : Bytes)
    → name_at n events ≡ c ∷ name
    → poll_loop (suc n) events is_first stream
      ≡ poll_loop n events false ((if is_first then stream else stream ++ bar) ++ c ∷ name)
unfolding poll_loop
poll_loop_some n events is_first stream c name h = ground (arith, h)

poll_loop_later :
    (n events : ℕ) (stream : Bytes)
    → poll_loop n events false stream ≡ stream ++ barred (names n events)
poll_loop_later zero events stream = unfold poll_loop names in sym (append-nil stream)
poll_loop_later (suc n) events stream = elim (List-cases (name_at n events)) [
  | inl none_set ↦
      poll_loop_none n events false stream none_set
      ∙ rw (names_none n events none_set) (poll_loop_later n events stream)
  | inr (c, name, set) ↦
      poll_loop_some n events false stream c name set
      ∙ rw (names_some n events c name set) (
          poll_loop_later n events ((stream ++ bar) ++ c ∷ name)
          ∙ append_assoc (stream ++ bar) (c ∷ name) (barred (names n events))
          ∙ append_assoc stream bar ((c ∷ name) ++ barred (names n events)))
]

-- What the loop has written at its end, while no name has been written before.
abbrev text_of : List Bytes → Bytes
text_of [] = []
text_of (name ∷ more) = name ++ barred more

poll_loop_first : (n events : ℕ) → poll_loop n events true [] ≡ text_of (names n events)
poll_loop_first zero events = unfold poll_loop names in refl
poll_loop_first (suc n) events = elim (List-cases (name_at n events)) [
  | inl none_set ↦
      poll_loop_none n events true [] none_set
      ∙ rw (names_none n events none_set) (poll_loop_first n events)
  | inr (c, name, set) ↦
      poll_loop_some n events true [] c name set
      ∙ rw (names_some n events c name set) (poll_loop_later n events (c ∷ name))
]

names_cases :
    (n events : ℕ)
    → (names n events ≡ [])
      ⊎ ((c : ℕ) × (name : Bytes) × (more : List Bytes) × (names n events ≡ (c ∷ name) ∷ more))
names_cases zero events = inl (unfold names in refl)
names_cases (suc n) events = elim (List-cases (name_at n events)) [
  | inl none_set ↦ rw (names_none n events none_set) (names_cases n events)
  | inr (c, name, set) ↦ inr (c, name, names n events, names_some n events c name set)
]

text_or_empty :
    (text : Bytes) (ns : List Bytes)
    → text ≡ text_of ns
    → (ns ≡ []) ⊎ ((c : ℕ) × (name : Bytes) × (more : List Bytes) × (ns ≡ (c ∷ name) ∷ more))
    → (if ltb 0 (length text) then text else empty_text) ≡ joined ns
text_or_empty text ns e (inl nothing) = rw (e, nothing)
text_or_empty text ns e (inr (c, name, more, something)) = rw (e, something) (ground arith)

-- pollEventsToString gives the names of the flags that are set, from the highest on, with bars between
-- them, and "EMPTY" exactly where none of them has a name.
poll_events_to_string_joins : (events : ℕ) → poll_events_to_string events ≡ joined (names 32 events)
unfolding poll_events_to_string
poll_events_to_string_joins events =
    text_or_empty (poll_loop 32 events true []) (names 32 events) (poll_loop_first 32 events)
      (names_cases 32 events)
