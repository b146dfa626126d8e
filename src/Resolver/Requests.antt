-- ===== src/Resolver/Requests.antt =====
-- src/resolverimpl.cpp: ResolverImpl, its open requests and what they tell the clients. Every operation
-- holds the resolver's lock. `none` is a read of the last element of an empty vector. The order of the
-- unordered map of requests is that of a list, whichever it is.
use epoller.Prelude.{
  ℕ, ◌+◌, ◌%◌, ◌^◌, Bool, true, false, ◌&&◌, List, [], ◌∷◌, ◌++◌, Bytes, ◌==◌, if◌then◌else◌,
  Option, none, some, length, ◌>>=◌,
}
use epoller.IpAddr.{IpAddr}
use epoller.Query.Message.{Qanswer, qtype_a, qtype_aaaa}
use epoller.Resolver.Names.{AddrPref, ipv4_only, ipv6_only, Names, get, put}

-- class ResolverQuery, its clients and its resolvers by what they are known by, without the event.
pub record ResolverQuery : Type 0 where
  pub prefs : AddrPref
  pub clients : List ℕ
  pub resolvers : List ℕ

-- What an operation makes others do: a client is told, a UdpResolver asks the name server for records of
-- a type, a resolver is disconnected, and the timer of a request is set or cancelled.
pub data Note : Type 0 where
  resolved : ℕ → IpAddr → Note
  not_resolved : ℕ → Note
  asks : ℕ → Bytes → ℕ → Note
  disconnects : ℕ → Note
  sets_timer : ℕ → ℕ → Note
  cancels_timer : ℕ → Note

pub record ResolverImpl : Type 0 where
  pub res_queries : List (ℕ × ResolverQuery)
  pub by_name : List (Bytes × Names)
  pub request : ℕ
  pub notes : List Note

abbrev pub note : Note → ResolverImpl → ResolverImpl
note n s = record s { notes = s.notes ++ n ∷ [] }

unfoldable pub same_name : Bytes → Bytes → Bool
same_name [] [] = true
same_name (a ∷ as') (b ∷ bs) = a == b && same_name as' bs
same_name _ _ = false

-- byName.find, and the assignment through the iterator.
unfoldable pub find_name : Bytes → List (Bytes × Names) → Option Names
unfolding same_name
find_name name [] = none
find_name name ((n, names) ∷ more) = if same_name n name then some names else find_name name more

unfoldable pub set_name : Bytes → Names → List (Bytes × Names) → List (Bytes × Names)
unfolding same_name
set_name name names [] = (name, names) ∷ []
set_name name names ((n, old) ∷ more) =
    if same_name n name then (n, names) ∷ more else (n, old) ∷ set_name name names more

-- resQueries.find, operator[] with an assignment, and erase.
unfoldable pub find_query : ℕ → List (ℕ × ResolverQuery) → Option ResolverQuery
find_query id [] = none
find_query id ((k, q) ∷ more) = if k == id then some q else find_query id more

unfoldable pub set_query : ℕ → ResolverQuery → List (ℕ × ResolverQuery) → List (ℕ × ResolverQuery)
set_query id q [] = (id, q) ∷ []
set_query id q ((k, old) ∷ more) = if k == id then (k, q) ∷ more else (k, old) ∷ set_query id q more

unfoldable pub erase_query : ℕ → List (ℕ × ResolverQuery) → List (ℕ × ResolverQuery)
erase_query id [] = []
erase_query id ((k, q) ∷ more) = if k == id then more else (k, q) ∷ erase_query id more

-- back() and pop_back().
unfoldable pub back : List ℕ → Option ℕ
back [] = none
back (c ∷ []) = some c
back (c ∷ d ∷ cs) = back (d ∷ cs)

unfoldable pub pop_back : List ℕ → List ℕ
pop_back [] = []
pop_back (c ∷ []) = []
pop_back (c ∷ d ∷ cs) = c ∷ pop_back (d ∷ cs)

-- get, with as many rounds as it can need.
abbrev pub get_addr : AddrPref → Names → Option (Option IpAddr × Names)
get_addr prefs names = get prefs (length names.addrs + 1) names

-- How a client is told of what get has found.
abbrev pub outcome : ℕ → Option IpAddr → Note
outcome client none = not_resolved client
outcome client (some a) = resolved client a

abbrev asks_ipv6 : AddrPref → Bool
asks_ipv6 ipv4_only = false
asks_ipv6 _ = true

abbrev asks_ipv4 : AddrPref → Bool
asks_ipv4 ipv6_only = false
asks_ipv4 _ = true

-- The branch of resolve that opens a request. The request's number also names the UdpResolver that asks
-- for IPv4 addresses, which alone is kept.
unfoldable pub open_request : ℕ → Bytes → AddrPref → ℕ → ResolverImpl → ResolverImpl
open_request client name prefs timeout s =
    let ipv6 = asks_ipv6 prefs in
    let ipv4 = asks_ipv4 prefs in
    let q : ResolverQuery = record {
      prefs = prefs;
      clients = (if ipv6 then client ∷ [] else []) ++ (if ipv4 then client ∷ [] else []);
      resolvers = if ipv4 then s.request ∷ [] else [];
    } in
    record s {
      res_queries = set_query s.request q s.res_queries;
      request = (s.request + 1) % 2 ^ 16;
      notes =
          s.notes
          ++ ((if ipv6 then asks s.request name qtype_aaaa ∷ [] else [])
              ++ ((if ipv4 then asks s.request name qtype_a ∷ [] else [])
                  ++ sets_timer s.request timeout ∷ []));
    }

-- resolve.
unfoldable pub resolve : ℕ → Bytes → AddrPref → ℕ → ResolverImpl → Option ResolverImpl
resolve client name prefs timeout s = elim (find_name name s.by_name) [
  | some names ↦ do
    (found, names') ← get_addr prefs names
    some (note (outcome client found) (record s { by_name = set_name name names' s.by_name }))
  | none ↦ some (open_request client name prefs timeout s)
]

-- The loop of queryTimedout, from a request on: the last client, and the resolvers that are alive.
unfoldable pub time_out_from :
    (ℕ → Bool) → List (ℕ × ResolverQuery) → Option ℕ → List Note → Option (Option ℕ × List Note)
time_out_from alive [] client notes = some (client, notes)
time_out_from alive ((k, q) ∷ more) client notes = do
  c ← back q.clients
  r ← back q.resolvers
  time_out_from alive more (some c) (if alive r then notes ++ disconnects r ∷ [] else notes)

-- The requests before the one that is found, and those from it on.
unfoldable pub before_query : ℕ → List (ℕ × ResolverQuery) → List (ℕ × ResolverQuery)
before_query id [] = []
before_query id ((k, q) ∷ more) = if k == id then [] else (k, q) ∷ before_query id more

unfoldable pub from_query : ℕ → List (ℕ × ResolverQuery) → List (ℕ × ResolverQuery)
from_query id [] = []
from_query id ((k, q) ∷ more) = if k == id then (k, q) ∷ more else from_query id more

abbrev tell_last : Option ℕ → List Note
tell_last none = []
tell_last (some client) = not_resolved client ∷ []

-- queryTimedout. `alive` says which UdpResolvers still exist.
unfoldable pub query_timedout : (ℕ → Bool) → ℕ → ResolverImpl → Option ResolverImpl
query_timedout alive query_id s = do
  (client, notes) ← time_out_from alive (from_query query_id s.res_queries) none s.notes
  some (record s {
    res_queries = before_query query_id s.res_queries;
    notes = notes ++ tell_last client;
  })

-- What a valid answer adds to the names.
unfoldable pub put_answer : Qanswer → List (Bytes × Names) → List (Bytes × Names)
put_answer ans by_name =
    if ans.valid
    then elim (find_name ans.name by_name) [
      | some names ↦ set_name ans.name (put ans.addr names) by_name
      | none ↦
          set_name ans.name (put ans.addr (record { last_access_index = 0; addrs = [] })) by_name
    ]
    else by_name

-- get of the answered name, if the name is there.
unfoldable pub answer_for :
    AddrPref → Bytes → List (Bytes × Names) → Option (Option IpAddr × List (Bytes × Names))
answer_for prefs name by_name = elim (find_name name by_name) [
  | none ↦ some (none, by_name)
  | some names ↦ do
    (found, names') ← get_addr prefs names
    some (found, set_name name names' by_name)
]

-- requestComplete.
unfoldable pub request_complete : ℕ → Qanswer → ResolverImpl → Option ResolverImpl
request_complete req_no ans s = elim (find_query req_no s.res_queries) [
  | none ↦ some s
  | some q ↦ do
    client ← back q.clients
    elim (pop_back q.clients) [
      | c ∷ cs ↦ some (record s {
        res_queries = set_query req_no (record q { clients = c ∷ cs }) s.res_queries;
        by_name = put_answer ans s.by_name;
      })
      | [] ↦ do
        (found, by_name) ← answer_for q.prefs ans.name (put_answer ans s.by_name)
        some (record s {
          res_queries = erase_query req_no s.res_queries;
          by_name = by_name;
          notes = s.notes ++ cancels_timer req_no ∷ outcome client found ∷ [];
        })
    ]
]
