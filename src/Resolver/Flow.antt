-- ===== src/Resolver/Flow.antt =====
-- src/resolverimpl.cpp, src/resolver.cpp and src/query.cpp: from a client's request for a name to what it is told.
use epoller.Prelude.{
  ℕ, ◌+◌, ◌%◌, ◌^◌, ◌≡◌, ◌<◌, refl, ap, ◌∙◌, true, List, [], ◌∷◌, ◌++◌, Bytes, none, some, All,
  arith, count_if, append_assoc,
}
use epoller.IpAddr.{IpAddr, set_ipv4}
use epoller.Query.Name.Wire.{IsLabel, text_of}
use epoller.Query.Message.{host, qtype_a}
use epoller.Query.Response.Address.{response_ipv4, response_header, raw_ipv4}
use epoller.Resolver.Names.{ipv4_only}
use epoller.Resolver.Requests.{
  ResolverQuery, ResolverImpl, Note, asks, sets_timer, resolved, cancels_timer, disconnects,
  find_name, set_name, find_query, set_query, resolve, open_request, note, get_addr,
}
use epoller.Resolver.Complete.{at_request, find-set_query}
use epoller.Resolver.Udp.{UdpResolver, received}
use epoller.Resolver.Replies.{only, get_only, suits-set_ipv4, received-resolves}

count_if-set_query :
    (id : ℕ) (q : ResolverQuery) (queries : List (ℕ × ResolverQuery))
    → count_if (at_request id) queries ≡ 0
    → count_if (at_request id) (set_query id q queries) ≡ 1
unfolding set_query
count_if-set_query id q [] h = ground arith
count_if-set_query id q ((k, old) ∷ more) h = ground (arith, h, count_if-set_query id q more)

-- The request that a client opens for an IPv4 address.
abbrev asked : ℕ → ℕ → ResolverQuery
asked client request = record { prefs = ipv4_only; clients = client ∷ []; resolvers = request ∷ [] }

resolve_new :
    (client timeout : ℕ) (name : Bytes) (s : ResolverImpl)
    → find_name name s.by_name ≡ none
    → resolve client name ipv4_only timeout s
      ≡ some (record s {
        res_queries = set_query s.request (asked client s.request) s.res_queries;
        request = (s.request + 1) % 2 ^ 16;
        notes = s.notes ++ asks s.request name qtype_a ∷ sets_timer s.request timeout ∷ [];
      })
unfolding resolve open_request
resolve_new client timeout name s new = ground (arith, new)

resolve_kept :
    (client timeout : ℕ) (name : Bytes) (a : IpAddr) (s : ResolverImpl)
    → find_name name s.by_name ≡ some (only a)
    → get_addr ipv4_only (only a) ≡ some (some a, only a)
    → resolve client name ipv4_only timeout s
      ≡ some (note (resolved client a) (record s { by_name = set_name name (only a) s.by_name }))
unfolding resolve
resolve_kept client timeout name a s there get = ground (arith, there, get)

-- A response with one IPv4 answer: the bytes of its identifier, flags, type and class, the low byte of the
-- pointer to the name, the time to live, the address, and what follows.
pub record Reply : Type 0 where
  pub i0 : ℕ
  pub i1 : ℕ
  pub f0 : ℕ
  pub f1 : ℕ
  pub q0 : ℕ
  pub q1 : ℕ
  pub q2 : ℕ
  pub q3 : ℕ
  pub low : ℕ
  pub l0 : ℕ
  pub l1 : ℕ
  pub l2 : ℕ
  pub l3 : ℕ
  pub s0 : ℕ
  pub s1 : ℕ
  pub s2 : ℕ
  pub s3 : ℕ
  pub rest : Bytes

abbrev pub message : Reply → Bytes → List Bytes → Bytes
message r l ls =
    response_ipv4 (response_header r.i0 r.i1 r.f0 r.f1) l ls (r.q0 ∷ r.q1 ∷ r.q2 ∷ r.q3 ∷ [])
      (raw_ipv4 r.low r.l0 r.l1 r.l2 r.l3) (r.s0 ∷ r.s1 ∷ r.s2 ∷ r.s3 ∷ r.rest)

abbrev pub address : Reply → IpAddr
address r = set_ipv4 host r.s0 r.s1 r.s2 r.s3

-- The UdpResolver that a request for an IPv4 address makes.
abbrev pub asking : ℕ → Bytes → UdpResolver
asking request name = record { request_no = request; name = name; q_type = qtype_a; socket = true }

-- A client asks for the IPv4 address of a name that is not kept, a response with that name and one IPv4
-- answer comes to the UdpResolver, and another client asks for the same name. The name server is asked
-- once; each client is told the address of the response, once, the second one at once; and neither the
-- request nor its timer is left.
pub resolve_flow :
    (now : ℕ → ℕ) (r : Reply) (l : Bytes) (ls : List Bytes) (client client' timeout timeout' : ℕ)
    (s : ResolverImpl)
    → IsLabel l
    → All IsLabel ls
    → 0 < r.low
    → find_name (text_of l ls) s.by_name ≡ none
    → count_if (at_request s.request) s.res_queries ≡ 0
    → let name = text_of l ls in
      (s1 : ResolverImpl) × (s2 : ResolverImpl) × (s3 : ResolverImpl) × (resolve client name
          ipv4_only timeout s
        ≡ some s1)
      × (received now (message r l ls) (asking s.request name) s1 ≡ some s2)
      × (resolve client' name ipv4_only timeout' s2 ≡ some s3)
      × (s3.notes
          ≡ s.notes
            ++ asks s.request name qtype_a
              ∷ sets_timer s.request timeout
              ∷ disconnects s.request
              ∷ cancels_timer s.request
              ∷ resolved client (address r)
              ∷ resolved client' (address r)
              ∷ [])
      × (find_query s.request s3.res_queries ≡ none)
resolve_flow now r l ls client client' timeout timeout' s h hs hl new unused =
    let name = text_of l ls in
    let q = asked client s.request in
    let s1 : ResolverImpl = record s {
      res_queries = set_query s.request q s.res_queries;
      request = (s.request + 1) % 2 ^ 16;
      notes = s.notes ++ asks s.request name qtype_a ∷ sets_timer s.request timeout ∷ [];
    } in
    let (s2, reads, notes, closed, kept) =
      received-resolves now r.i0 r.i1 r.f0 r.f1 r.q0 r.q1 r.q2 r.q3 r.low r.l0 r.l1 r.l2 r.l3 r.s0
        r.s1 r.s2 r.s3 l ls r.rest (asking s.request name) s1 q client h hs hl refl
        (find-set_query s.request q s.res_queries)
        (omega (arith, count_if-set_query s.request q s.res_queries unused)) refl refl new in
    let a = address r in
    let get = get_only ipv4_only a (suits-set_ipv4 host r.s0 r.s1 r.s2 r.s3) in
    let first : List Note = asks s.request name qtype_a ∷ sets_timer s.request timeout ∷ [] in
    let second : List Note =
      disconnects s.request ∷ cancels_timer s.request ∷ resolved client a ∷ [] in
    let third : List Note = resolved client' a ∷ [] in
    (
      s1,
      s2,
      note (resolved client' a) (record s2 { by_name = set_name name (only a) s2.by_name }),
      resolve_new client timeout name s new,
      reads,
      resolve_kept client' timeout' name a s2 kept get,
      ap (λ n. n ++ third) notes
          ∙ append_assoc (s.notes ++ first) second third
          ∙ append_assoc s.notes first (second ++ third),
      closed,
    )
