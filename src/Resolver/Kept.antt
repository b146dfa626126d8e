-- ===== src/Resolver/Kept.antt =====
-- src/resolverimpl.cpp: Names after any calls of put.
use epoller.Prelude.{
  ℕ, zero, suc, ◌<◌, ◌≡◌, ◌⊎◌, sym, ap, ◌∙◌, inl, inr, true, false, List, [], ◌∷◌, ◌++◌, Option,
  none, some, length, length-append, get_elem?, arith, List-cases, append_assoc, append-nil,
}
use epoller.IpAddr.{IpAddr}
use epoller.Resolver.Names.{AddrPref, Names, suits, search_addrs, get, put}
use epoller.Resolver.Lookup.{finds, misses, search_all}

-- Put adds the addresses of an answer behind those that are there.
put_lem :
    (more : List IpAddr) (names : Names)
    → put more names ≡ record names { addrs = names.addrs ++ more }
unfolding put
put_lem [] names = ap (λ ys. record names { addrs = ys }) (sym (append-nil names.addrs))
put_lem (a ∷ more) names =
    put_lem more (record names { addrs = names.addrs ++ a ∷ [] })
    ∙ ap (λ ys. record names { addrs = ys }) (append_assoc names.addrs (a ∷ []) more)

-- Names whose index is that of an address, or that have neither addresses nor an index above zero.
abbrev pub HasIndex : Names → Type 0
HasIndex names =
    (names.last_access_index < length names.addrs)
    ⊎ ((names.addrs ≡ []) × (names.last_access_index ≡ 0))

-- What get may give: an address that is kept and suits, with its index, or none, and then no address
-- that is kept suits.
pub data Got (prefs : AddrPref) (names : Names) (result : Option (Option IpAddr × Names))
    : Type 0 where
  gives :
      (a : IpAddr) (i : ℕ)
      → result ≡ some (some a, record names { last_access_index = i })
      → get_elem? names.addrs i ≡ some a
      → suits prefs a ≡ true
      → HasIndex (record names { last_access_index = i })
      → Got prefs names result
  gives_none :
      (i : ℕ)
      → result ≡ some (none, record names { last_access_index = i })
      → ((j : ℕ) (a : IpAddr) → get_elem? names.addrs j ≡ some a → suits prefs a ≡ false)
      → HasIndex (record names { last_access_index = i })
      → Got prefs names result

elem_inside : (ys : List IpAddr) (i : ℕ) (a : IpAddr) → get_elem? ys i ≡ some a → i < length ys
elem_inside [] i a e = cc
elem_inside (x ∷ ys) zero a e = omega arith
elem_inside (x ∷ ys) (suc i) a e = omega (arith, elem_inside ys i a e)

pub put-HasIndex : (more : List IpAddr) (names : Names) → HasIndex names → HasIndex (put more names)
put-HasIndex more names h = rw (put_lem more names) (elim h [
  | inl p ↦ inl (omega (arith, p, length-append names.addrs more))
  | inr (q, z) ↦ elim (List-cases more) [
    | inl none_put ↦ inr (ground (arith, q, none_put), z)
    | inr (a, rest, e) ↦ inl (ground (arith, q, z, e))
  ]
])

get-some :
    (prefs : AddrPref) (fuel : ℕ) (names : Names) (found : Option IpAddr) (i : ℕ)
    → 0 < length names.addrs
    → search_addrs prefs names fuel names.last_access_index false ≡ some (found, i)
    → get prefs fuel names ≡ some (found, record names { last_access_index = i })
unfolding get
get-some prefs fuel names found i p e = elim (List-cases names.addrs) [
  | inl empty ↦ absurd (ground (arith, empty))
  | inr (a, rest, full) ↦ ground (arith, full, e)
]

get_empty :
    (prefs : AddrPref) (fuel : ℕ) (names : Names)
    → names.addrs ≡ []
    → get prefs fuel names ≡ some (none, names)
unfolding get
get_empty prefs fuel names e = ground (arith, e)

-- get ends, in no more rounds than there are addresses and one, and never reads out of range. It gives
-- an address that is kept and suits the preference, or none, and then no address that is kept does; and
-- the index that it leaves serves the next call.
pub get-Got :
    (prefs : AddrPref) (fuel : ℕ) (names : Names)
    → HasIndex names
    → length names.addrs < fuel
    → Got prefs names (get prefs fuel names)
get-Got prefs fuel names (inl p) f = elim (search_all prefs names fuel p f) [
  | finds a i e q s ↦
      gives a i (get-some prefs fuel names (some a) i (omega (arith, p)) e) q s
        (inl (elem_inside names.addrs i a q))
  | misses i e q m ↦ gives_none i (get-some prefs fuel names none i (omega (arith, p)) e) m (inl q)
]
get-Got prefs fuel names (inr (empty, z)) f =
    gives_none names.last_access_index (get_empty prefs fuel names empty)
      (λ j a at. ground (arith, ap (λ ys. get_elem? ys j) empty)) (inr (empty, z))
