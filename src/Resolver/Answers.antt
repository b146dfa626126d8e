-- ===== src/Resolver/Answers.antt =====
-- src/resolverimpl.cpp: what the answers to a request make the resolver tell its client.
use epoller.Prelude.{
  ◌+◌, ◌≡◌, refl, sym, ap, ◌∙◌, inl, inr, true, List, [], ◌∷◌, Bytes, Option, none, some,
  some-injective, length, All, arith, Option-cases, Bool-cases,
}
use epoller.IpAddr.{IpAddr}
use epoller.Query.Message.{Qanswer}
use epoller.Resolver.Names.{AddrPref, Names, suits}
use epoller.Resolver.Kept.{HasIndex, put-HasIndex, get-Got, gives, gives_none}
use epoller.Resolver.Requests.{get_addr, same_name, find_name, set_name, put_answer, answer_for}

-- Every name that is kept has an index that get can start from.
abbrev pub Indexed : List (Bytes × Names) → Type 0
Indexed = All (λ e. HasIndex e.1)

pub find_name-HasIndex :
    (name : Bytes) (by_name : List (Bytes × Names)) (names : Names)
    → Indexed by_name
    → find_name name by_name ≡ some names
    → HasIndex names
unfolding find_name
find_name-HasIndex name [] names h e = cc
find_name-HasIndex name ((n, old) ∷ more) names h e = elim (Bool-cases (same_name n name)) [
  | inl hit ↦ ground (arith, hit, h.0)
  | inr miss ↦ find_name-HasIndex name more names h.1 (ground (arith, miss))
]

pub set_name-Indexed :
    (name : Bytes) (names : Names) (by_name : List (Bytes × Names))
    → HasIndex names
    → Indexed by_name
    → Indexed (set_name name names by_name)
unfolding set_name
set_name-Indexed name names [] h v = (h, tt)
set_name-Indexed name names ((n, old) ∷ more) h v = elim (Bool-cases (same_name n name)) [
  | inl hit ↦ rw hit (h, v.1)
  | inr miss ↦ rw miss (v.0, set_name-Indexed name names more h v.1)
]

pub put_answer-Indexed :
    (ans : Qanswer) (by_name : List (Bytes × Names))
    → Indexed by_name
    → Indexed (put_answer ans by_name)
unfolding put_answer
put_answer-Indexed ans by_name v = elim (Bool-cases ans.valid) [
  | inr bad ↦ rw bad v
  | inl good ↦ elim (Option-cases (find_name ans.name by_name)) [
    | inl new ↦
        rw (good, new)
          (set_name-Indexed ans.name _ by_name (put-HasIndex ans.addr _ (inr (refl, refl))) v)
    | inr (names, old) ↦
        rw (good, old)
          (set_name-Indexed ans.name _ by_name
            (put-HasIndex ans.addr names (find_name-HasIndex ans.name by_name names v old)) v)
  ]
]

-- What is found is an address that suits.
abbrev pub Fits : AddrPref → Option IpAddr → Type 0
Fits prefs found = (a : IpAddr) → found ≡ some a → suits prefs a ≡ true

pub get_addr-Fits :
    (prefs : AddrPref) (names : Names)
    → HasIndex names
    → (found : Option IpAddr) × (names' : Names) × (get_addr prefs names ≡ some (found, names'))
      × HasIndex names'
      × Fits prefs found
get_addr-Fits prefs names h = elim (get-Got prefs (length names.addrs + 1) names h (omega arith)) [
  | gives a i e at fits kept ↦
      (some a, _, e, kept, λ b p. ap (suits prefs) (sym (some-injective a b p)) ∙ fits)
  | gives_none i e m kept ↦ (none, _, e, kept, λ b p. cc)
]

pub answer_for_total :
    (prefs : AddrPref) (name : Bytes) (by_name : List (Bytes × Names))
    → Indexed by_name
    → (found : Option IpAddr) × (by_name' : List (Bytes × Names)) × (answer_for prefs name by_name
        ≡ some (found, by_name'))
      × Indexed by_name'
      × Fits prefs found
unfolding answer_for
answer_for_total prefs name by_name v = elim (Option-cases (find_name name by_name)) [
  | inl absent ↦ (none, by_name, rw (answer_for, absent), v, λ b p. cc)
  | inr (names, there) ↦
      let (found, names', e, kept, fits) =
        get_addr-Fits prefs names (find_name-HasIndex name by_name names v there) in
      (
        found,
        set_name name names' by_name,
        rw (answer_for, there, e),
        set_name-Indexed name names' by_name kept v,
        fits,
      )
]
