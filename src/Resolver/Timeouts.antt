-- ===== src/Resolver/Timeouts.antt =====
-- src/resolverimpl.cpp: what queryTimedout does to the other requests, and to one for IPv6 only.
use epoller.Prelude.{
  ℕ, ◌≡◌, refl, ap, ◌∙◌, inl, inr, Bool, List, [], ◌∷◌, ◌++◌, append_assoc, append-nil, Bytes, ◌==◌,
  if◌then◌else◌, Option, none, some, count_if, arith, Bool-cases,
}
use epoller.Resolver.Names.{ipv6_only}
use epoller.Resolver.Requests.{
  ResolverQuery, ResolverImpl, Note, not_resolved, disconnects, set_query, back, time_out_from,
  before_query, from_query, query_timedout, resolve, open_request, find_name,
}
use epoller.Resolver.Complete.{at_request}

before_query-append :
    (id : ℕ) (q : ResolverQuery) (before after : List (ℕ × ResolverQuery))
    → count_if (at_request id) before ≡ 0
    → (before_query id (before ++ (id, q) ∷ after) ≡ before)
      × (from_query id (before ++ (id, q) ∷ after) ≡ (id, q) ∷ after)
unfolding before_query from_query
before_query-append id q [] after h = (ground arith, ground arith)
before_query-append id q ((k, p) ∷ before) after h =
    let ih = before_query-append id q before after (ground arith) in
    (ground (arith, ih.0), ground (arith, ih.1))

-- The notes that the loop adds: resolvers that are disconnected.
abbrev pub disconnected : (ℕ → Bool) → List ℕ → List Note
disconnected alive [] = []
disconnected alive (r ∷ rs) =
    if alive r then disconnects r ∷ disconnected alive rs else disconnected alive rs

-- Open requests, each with the last of its clients and the last of its resolvers.
pub data Ends : List (ℕ × ResolverQuery) → List ℕ → List ℕ → Type 0 where
  nil : Ends [] [] []
  cons :
      {k c r : ℕ} {q : ResolverQuery} {more : List (ℕ × ResolverQuery)} {cs rs : List ℕ}
      → back q.clients ≡ some c
      → back q.resolvers ≡ some r
      → Ends more cs rs
      → Ends ((k, q) ∷ more) (c ∷ cs) (r ∷ rs)

abbrev pub last_of : ℕ → List ℕ → ℕ
last_of c [] = c
last_of c (d ∷ cs) = last_of d cs

time_out_from_lem :
    (alive : ℕ → Bool) {queries : List (ℕ × ResolverQuery)} {cs rs : List ℕ} (c : Option ℕ) (d : ℕ)
    (notes : List Note)
    → Ends queries cs rs
    → (cs ≡ [] → c ≡ some d)
    → time_out_from alive queries c notes
      ≡ some (some (last_of d cs), notes ++ disconnected alive rs)
unfolding time_out_from
time_out_from_lem alive c d notes nil h = rw (h refl, append-nil notes)
time_out_from_lem alive c d notes (cons {c = e} {r} {cs} {rs} p q more) h =
    elim (Bool-cases (alive r)) [
      | inl here ↦
          rw (p, q, here)
            (time_out_from_lem alive (some e) e (notes ++ disconnects r ∷ []) more (λ _. refl)
              ∙ ap (λ ns. some (some (last_of e cs), ns))
                  (append_assoc notes (disconnects r ∷ []) (disconnected alive rs)))
      | inr gone ↦ rw (p, q, gone) (time_out_from_lem alive (some e) e notes more (λ _. refl))
    ]

-- When a request times out, every request behind it in the order of the map is closed with it and its
-- resolver disconnected; of all their clients only that of the last one is told.
pub query_timedout_drops :
    (alive : ℕ → Bool) (id : ℕ) (q : ResolverQuery) (before after : List (ℕ × ResolverQuery))
    (c : ℕ) (cs rs : List ℕ) (s : ResolverImpl)
    → s.res_queries ≡ before ++ (id, q) ∷ after
    → count_if (at_request id) before ≡ 0
    → Ends ((id, q) ∷ after) (c ∷ cs) rs
    → query_timedout alive id s
      ≡ some (record s {
        res_queries = before;
        notes = (s.notes ++ disconnected alive rs) ++ not_resolved (last_of c cs) ∷ [];
      })
unfolding query_timedout
query_timedout_drops alive id q before after c cs rs s e first ends =
    let split = before_query-append id q before after first in
    let from : from_query id s.res_queries ≡ (id, q) ∷ after = ap (from_query id) e ∙ split.1 in
    let left : before_query id s.res_queries ≡ before = ap (before_query id) e ∙ split.0 in
    rw
      (query_timedout, from, left, time_out_from_lem alive none c s.notes ends (λ empty. absurd cc))

from_query-set_query :
    (id : ℕ) (q : ResolverQuery) (queries : List (ℕ × ResolverQuery))
    → (after : List (ℕ × ResolverQuery)) × (from_query id (set_query id q queries)
        ≡ (id, q) ∷ after)
unfolding from_query set_query
from_query-set_query id q [] = ([], ground arith)
from_query-set_query id q ((k, old) ∷ more) = elim (Bool-cases (k == id)) [
  | inl hit ↦ (more, ground (arith, hit))
  | inr miss ↦ let (after, e) = from_query-set_query id q more in (after, ground (arith, miss, e))
]

-- A request for IPv6 only keeps no resolver, so that its timeout reads the last element of an empty
-- vector.
pub ipv6_only_timeout :
    (alive : ℕ → Bool) (client timeout : ℕ) (name : Bytes) (s : ResolverImpl)
    → find_name name s.by_name ≡ none
    → (s' : ResolverImpl) × (resolve client name ipv6_only timeout s ≡ some s')
      × (query_timedout alive s.request s' ≡ none)
unfolding open_request query_timedout time_out_from back resolve set_query
ipv6_only_timeout alive client timeout name s new =
    let q : ResolverQuery = record { prefs = ipv6_only; clients = client ∷ []; resolvers = [] } in
    let (after, from) = from_query-set_query s.request q s.res_queries in
    (open_request client name ipv6_only timeout s, rw (resolve, new), rw from)
