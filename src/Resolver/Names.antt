-- ===== src/Resolver/Names.antt =====
-- src/resolverimpl.cpp: Names, the addresses of one name.
use epoller.Prelude.{
  ℕ, zero, suc, ◌+◌, Bool, true, false, not, ◌&&◌, List, [], ◌∷◌, ◌++◌, ◌==◌, leb, if◌then◌else◌,
  Option, none, some, length, get_elem?, ◌>>=◌,
}
use epoller.IpAddr.{IpAddr, is_ipv4_addr}

-- Resolver::AddrPref.
pub data AddrPref : Type 0 where
  ipv4_only ipv6_only any_addr : AddrPref

-- struct Names; `expiry` is never read.
pub record Names : Type 0 where
  pub last_access_index : ℕ
  pub addrs : List IpAddr

-- The tests of the loop of get on one address.
unfoldable pub suits : AddrPref → IpAddr → Bool
suits any_addr a = true
suits ipv4_only a = is_ipv4_addr a
suits ipv6_only a = not (is_ipv4_addr a)

-- The index behind `i`, and `once`.
abbrev pub advance : ℕ → ℕ → Bool → ℕ × Bool
advance num i once = if leb num (i + 1) then (0, true) else (i + 1, once)

-- The loop of get, on fuel: the address found, and the last index. `none` if the fuel runs out or an
-- index is out of range.
unfoldable pub search_addrs : AddrPref → Names → ℕ → ℕ → Bool → Option (Option IpAddr × ℕ)
search_addrs prefs names zero i once = none
search_addrs prefs names (suc fuel) i once =
    if once && i == names.last_access_index
    then some (none, i)
    else let (i', once') = advance (length names.addrs) i once in
      elim (get_elem? names.addrs i') [
        | none ↦ none
        | some a ↦ elim (suits prefs a) [
          | true ↦ some (some a, i')
          | false ↦ search_addrs prefs names fuel i' once'
        ]
      ]

-- get: the address, if one is found, and the names with their new index.
unfoldable pub get : AddrPref → ℕ → Names → Option (Option IpAddr × Names)
get prefs fuel names = elim names.addrs [
  | [] ↦ some (none, names)
  | a ∷ rest ↦ do
    (found, i) ← search_addrs prefs names fuel names.last_access_index false
    some (found, record names { last_access_index = i })
]

-- put.
unfoldable pub put : List IpAddr → Names → Names
put [] names = names
put (a ∷ more) names = put more (record names { addrs = names.addrs ++ a ∷ [] })
