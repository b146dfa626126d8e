-- ===== src/Resolver/Lookup.antt =====
-- src/resolverimpl.cpp: the search of get of Names.
use epoller.Prelude.{
  ℕ, zero, suc, ◌+◌, ◌-◌, ◌≤◌, ◌<◌, ◌≡◌, refl, sym, ap, ◌∙◌, inl, inr, Bool, true, false, ◌&&◌,
  List, [], ◌∷◌, ◌==◌, if◌then◌else◌, Option, none, some, length, get_elem?, arith, dec_lt,
  Bool-cases,
}
use mathlib.Core.Path.{ap₂}
use epoller.IpAddr.{IpAddr}
use epoller.Resolver.Names.{AddrPref, Names, advance, suits, search_addrs}

elem_below : (xs : List IpAddr) (i : ℕ) → i < length xs → (a : IpAddr) × (get_elem? xs i ≡ some a)
elem_below [] i h = absurd (omega arith)
elem_below (x ∷ xs) zero h = (x, refl)
elem_below (x ∷ xs) (suc i) h = elem_below xs i (omega arith)

elem_outside : (xs : List IpAddr) (i : ℕ) → length xs ≤ i → get_elem? xs i ≡ none
elem_outside [] i h = refl
elem_outside (x ∷ xs) zero h = absurd (omega arith)
elem_outside (x ∷ xs) (suc i) h = elem_outside xs i (omega arith)

-- No address in this range of indexes suits.
abbrev NoneFits : AddrPref → List IpAddr → ℕ → ℕ → Type 0
NoneFits prefs xs from below =
    (j : ℕ) (a : IpAddr) → from < j → j < below → get_elem? xs j ≡ some a → suits prefs a ≡ false

-- What a search may give: an address that suits and its index, or none, where `Missed` says which
-- addresses do not suit.
pub data Outcome (prefs : AddrPref) (xs : List IpAddr) (result : Option (Option IpAddr × ℕ))
    (Missed : Type 0) : Type 0 where
  finds :
      (a : IpAddr) (i : ℕ)
      → result ≡ some (some a, i)
      → get_elem? xs i ≡ some a
      → suits prefs a ≡ true
      → Outcome prefs xs result Missed
  misses :
      (i : ℕ) → result ≡ some (none, i) → i < length xs → Missed → Outcome prefs xs result Missed

module _ (prefs : AddrPref) (names : Names) where
  abbrev xs : List IpAddr
  xs = names.addrs

  abbrev last : ℕ
  last = names.last_access_index

  -- One round, where the search goes on to the index `i'` with the flag `once'`.
  search_round :
      (fuel i i' : ℕ) (once once' : Bool) (a : IpAddr)
      → (once && i == last) ≡ false
      → (advance (length xs) i once).0 ≡ i'
      → (advance (length xs) i once).1 ≡ once'
      → get_elem? xs i' ≡ some a
      → search_addrs prefs names (suc fuel) i once
        ≡ (if suits prefs a then some (some a, i') else search_addrs prefs names fuel i' once')
  unfolding search_addrs
  search_round fuel i i' once once' a going to flag here = elim (Bool-cases (suits prefs a)) [
    | inl fits ↦ rw (going, to, here, fits) (ap (λ k. some (some a, k)) to)
    | inr unfit ↦
        rw (going, to, here, unfit) (ap₂ (λ j o. search_addrs prefs names fuel j o) to flag)
  ]

  search_stop :
      (fuel i : ℕ) → i ≡ last → search_addrs prefs names (suc fuel) i true ≡ some (none, i)
  unfolding search_addrs
  search_stop fuel i e = ground (arith, e)

  -- Once round, the search goes up to the index where it began.
  search_late :
      (fuel i : ℕ)
      → i ≤ last
      → last < length xs
      → last - i < fuel
      → Outcome prefs xs (search_addrs prefs names fuel i true) (NoneFits prefs xs i (last + 1))
  search_late zero i h p f = absurd (omega arith)
  search_late (suc fuel) i h p f = elim (dec_lt i last) [
    | no top ↦
        misses i (search_stop fuel i (omega arith)) (omega arith)
          (λ j a q r e. absurd (omega arith))
    | yes below ↦
        let (a, here) = elem_below xs (i + 1) (omega arith) in
        let to : (advance (length xs) i true).0 ≡ i + 1 = ground arith in
        let flag : (advance (length xs) i true).1 ≡ true = ground arith in
        let going : (true && i == last) ≡ false = ground arith in
        let round = search_round fuel i (i + 1) true true a going to flag here in
        elim (Bool-cases (suits prefs a)) [
          | inl fits ↦ finds a (i + 1) (ground (arith, round)) here fits
          | inr unfit ↦ elim (search_late fuel (i + 1) (omega arith) p (omega arith)) [
            | finds b j e q s ↦ finds b j (ground (arith, round, e)) q s
            | misses j e q m ↦ misses j (ground (arith, round, e)) q (λ k b lo hi at.
                elim (dec_lt (i + 1) k) [
                  | yes more ↦ m k b more hi at
                  | no here' ↦ ground (arith, at)
                ])
          ]
        ]
  ]

  -- From the index where it begins the search first goes up to the end.
  search_early :
      (fuel i : ℕ)
      → last ≤ i
      → i < length xs
      → length xs + last - i < fuel
      → Outcome prefs xs (search_addrs prefs names fuel i false) (
          NoneFits prefs xs i (length xs)
          × NoneFits prefs xs 0 (last + 1)
          × ((a : IpAddr) → get_elem? xs 0 ≡ some a → suits prefs a ≡ false))
  search_early zero i h p f = absurd (omega arith)
  search_early (suc fuel) i h p f = elim (dec_lt (i + 1) (length xs)) [
    | yes room ↦
        let (a, here) = elem_below xs (i + 1) room in
        let to : (advance (length xs) i false).0 ≡ i + 1 = ground arith in
        let flag : (advance (length xs) i false).1 ≡ false = ground arith in
        let round = search_round fuel i (i + 1) false false a refl to flag here in
        elim (Bool-cases (suits prefs a)) [
          | inl fits ↦ finds a (i + 1) (ground (arith, round)) here fits
          | inr unfit ↦ elim (search_early fuel (i + 1) (omega arith) room (omega arith)) [
            | finds b j e q s ↦ finds b j (ground (arith, round, e)) q s
            | misses j e q m ↦ misses j (ground (arith, round, e)) q (
              λ k b lo hi at. elim (dec_lt (i + 1) k) [
                | yes more ↦ m.0 k b more hi at
                | no here' ↦ ground (arith, at)
              ],
              m.1,
              m.2,
            )
          ]
        ]
    | no end ↦
        let (a, here) = elem_below xs 0 (omega arith) in
        let to : (advance (length xs) i false).0 ≡ 0 = ground arith in
        let flag : (advance (length xs) i false).1 ≡ true = ground arith in
        let round = search_round fuel i 0 false true a refl to flag here in
        elim (Bool-cases (suits prefs a)) [
          | inl fits ↦ finds a 0 (ground (arith, round)) here fits
          | inr unfit ↦ elim (search_late fuel 0 (omega arith) (omega arith) (omega arith)) [
            | finds b j e q s ↦ finds b j (ground (arith, round, e)) q s
            | misses j e q m ↦
                misses j (ground (arith, round, e)) q
                  (λ k b lo hi at. absurd (omega (arith, end)), m, λ b at. ground (arith, at))
          ]
        ]
  ]

  -- The search from its start, at an index of the list.
  pub search_all :
      (fuel : ℕ)
      → last < length xs
      → length xs < fuel
      → Outcome prefs xs
          (search_addrs prefs names fuel last false)
          ((j : ℕ) (a : IpAddr) → get_elem? xs j ≡ some a → suits prefs a ≡ false)
  search_all fuel p f = elim (search_early fuel last (omega arith) p (omega arith)) [
    | finds a i e q s ↦ finds a i e q s
    | misses i e q m ↦ misses i e q (λ j a at. elim (dec_lt last j) [
      | yes behind ↦ elim (dec_lt j (length xs)) [
        | yes inside ↦ m.0 j a behind inside at
        | no outside ↦ absurd (ground (arith, elem_outside xs j (omega arith)))
      ]
      | no before ↦ elim (dec_lt 0 j) [
        | yes positive ↦ m.1 j a positive (omega arith) at
        | no first ↦
            let zero_th : j ≡ 0 = omega arith in m.2 a (ap (get_elem? xs) (sym zero_th) ∙ at)
      ]
    ])
  ]
