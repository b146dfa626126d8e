-- ===== src/Resolver/Replies.antt =====
-- src/resolverimpl.cpp and src/query.cpp: from a name server's message to what the client is told.
use epoller.Prelude.{
  ℕ, ◌+◌, ◌*◌, ◌≡◌, ◌≤◌, ◌<◌, refl, ap, ◌∙◌, inl, inr, true, List, [], ◌∷◌, ◌++◌, Bytes,
  append_assoc, none, some, All, arith, Bool-cases, count_if,
}
use epoller.IpAddr.{IpAddr, set_ipv4, is_ipv4_addr}
use epoller.Query.Name.Wire.{IsLabel, text_of}
use epoller.Endian.{Host, little, big}
use epoller.Query.Message.{host, one_sec_in_ns, Qanswer}
use epoller.Query.Response.{decode}
use epoller.Query.Response.Address.{response_ipv4, response_header, raw_ipv4, decode-response_ipv4}
use epoller.Resolver.Names.{AddrPref, ipv4_only, Names, suits, get, search_addrs, put}
use epoller.Resolver.Requests.{
  ResolverQuery, ResolverImpl, resolved, cancels_timer, disconnects, same_name, find_name, set_name,
  find_query, erase_query, back, pop_back, put_answer, answer_for, request_complete, get_addr, note,
}
use epoller.Resolver.Complete.{at_request, find-erase_query}
use epoller.Resolver.Udp.{UdpResolver, disconnect, received}

same_name_refl : (name : Bytes) → same_name name name ≡ true
unfolding same_name
same_name_refl [] = refl
same_name_refl (c ∷ name) = ground (arith, same_name_refl name)

find-set_name :
    (name : Bytes) (names : Names) (by_name : List (Bytes × Names))
    → find_name name (set_name name names by_name) ≡ some names
unfolding find_name set_name
find-set_name name names [] = ground (arith, same_name_refl name)
find-set_name name names ((n, old) ∷ more) = elim (Bool-cases (same_name n name)) [
  | inl hit ↦ ground (arith, hit, same_name_refl name)
  | inr miss ↦ ground (arith, miss, find-set_name name names more)
]

abbrev pub only : IpAddr → Names
only a = record { last_access_index = 0; addrs = a ∷ [] }

pub get_only :
    (prefs : AddrPref) (a : IpAddr)
    → suits prefs a ≡ true
    → get_addr prefs (only a) ≡ some (some a, only a)
unfolding get search_addrs
get_only prefs a h = ground (arith, h)

put_answer-new :
    (ans : Qanswer) (a : IpAddr) (by_name : List (Bytes × Names))
    → ans.valid ≡ true
    → ans.addr ≡ a ∷ []
    → find_name ans.name by_name ≡ none
    → put_answer ans by_name ≡ set_name ans.name (only a) by_name
unfolding put_answer put
put_answer-new ans a by_name valid one new = rw (valid, new, one)

answer_for-new :
    (prefs : AddrPref) (name : Bytes) (a : IpAddr) (by_name : List (Bytes × Names))
    → suits prefs a ≡ true
    → answer_for prefs name (set_name name (only a) by_name)
      ≡ some (some a, set_name name (only a) (set_name name (only a) by_name))
unfolding answer_for
answer_for-new prefs name a by_name fits =
    ground (arith, find-set_name name (only a) by_name, get_only prefs a fits)

-- The last answer to a request, of a name that has not been known, with one address that suits.
complete_new :
    (req_no : ℕ) (ans : Qanswer) (a : IpAddr) (s : ResolverImpl) (q : ResolverQuery) (client : ℕ)
    → ans.valid ≡ true
    → ans.addr ≡ a ∷ []
    → suits q.prefs a ≡ true
    → find_query req_no s.res_queries ≡ some q
    → q.clients ≡ client ∷ []
    → find_name ans.name s.by_name ≡ none
    → request_complete req_no ans s
      ≡ some (record s {
        res_queries = erase_query req_no s.res_queries;
        by_name = set_name ans.name (only a) (set_name ans.name (only a) s.by_name);
        notes = s.notes ++ cancels_timer req_no ∷ resolved client a ∷ [];
      })
unfolding request_complete back pop_back
complete_new req_no ans a s q client valid one fits there waits new = ground (
  arith,
  there,
  waits,
  put_answer-new ans a s.by_name valid one new,
  answer_for-new q.prefs ans.name a s.by_name fits,
)

pub suits-set_ipv4 : (h : Host) (s0 s1 s2 s3 : ℕ) → suits ipv4_only (set_ipv4 h s0 s1 s2 s3) ≡ true
unfolding suits is_ipv4_addr set_ipv4
suits-set_ipv4 little s0 s1 s2 s3 = refl
suits-set_ipv4 big s0 s1 s2 s3 = refl

received-decode :
    (now : ℕ → ℕ) (w : Bytes) (u : UdpResolver) (s : ResolverImpl) (ans : Qanswer)
    → u.socket ≡ true
    → decode now w ≡ some ans
    → received now w u s ≡ request_complete u.request_no ans (note (disconnects u.request_no) s)
unfolding received disconnect
received-decode now w u s ans socket reads = ground (arith, socket, reads)

-- A message comes for a request for an IPv4 address that is open for one more answer: a response with
-- one question and one compressed IPv4 answer, for a name that is not kept yet. The socket is
-- disconnected, the request is closed, its timer is cancelled, and its client is told the address of
-- the message, once, and nothing more; the address is kept under the name in the message. The
-- identifier and the name in the message may be any.
pub received-resolves :
    (now : ℕ → ℕ) (i0 i1 f0 f1 q0 q1 q2 q3 low l0 l1 l2 l3 s0 s1 s2 s3 : ℕ) (l : Bytes)
    (ls : List Bytes) (rest : Bytes) (u : UdpResolver) (s : ResolverImpl) (q : ResolverQuery)
    (client : ℕ)
    → IsLabel l
    → All IsLabel ls
    → 0 < low
    → u.socket ≡ true
    → find_query u.request_no s.res_queries ≡ some q
    → count_if (at_request u.request_no) s.res_queries ≤ 1
    → q.prefs ≡ ipv4_only
    → q.clients ≡ client ∷ []
    → find_name (text_of l ls) s.by_name ≡ none
    → let a = set_ipv4 host s0 s1 s2 s3 in
      (s' : ResolverImpl) × (received now
          (response_ipv4
            (response_header i0 i1 f0 f1)
            l
            ls
            (q0 ∷ q1 ∷ q2 ∷ q3 ∷ [])
            (raw_ipv4 low l0 l1 l2 l3)
            (s0 ∷ s1 ∷ s2 ∷ s3 ∷ rest))
          u
          s
        ≡ some s')
      × (s'.notes
          ≡ s.notes
            ++ disconnects u.request_no ∷ cancels_timer u.request_no ∷ resolved client a ∷ [])
      × (find_query u.request_no s'.res_queries ≡ none)
      × (find_name (text_of l ls) s'.by_name ≡ some (only a))
received-resolves now i0 i1 f0 f1 q0 q1 q2 q3 low l0 l1 l2 l3 s0 s1 s2 s3 l ls rest u s q client h
      hs hl socket there once prefs waits new =
    let w : Bytes =
      response_ipv4 (response_header i0 i1 f0 f1) l ls (q0 ∷ q1 ∷ q2 ∷ q3 ∷ [])
        (raw_ipv4 low l0 l1 l2 l3) (s0 ∷ s1 ∷ s2 ∷ s3 ∷ rest) in
    let name = text_of l ls in
    let a = set_ipv4 host s0 s1 s2 s3 in
    let ans : Qanswer = record {
      valid = true;
      req_no = 256 * i0 + i1;
      name = name;
      addr = a ∷ [];
      ttl = some ((0x1000000 * l0 + 0x10000 * l1 + 0x100 * l2 + l3) * one_sec_in_ns);
      time_stamp = now 1;
    } in
    let s1' : ResolverImpl = note (disconnects u.request_no) s in
    let fits : suits q.prefs a ≡ true =
      ap (λ p. suits p a) prefs ∙ suits-set_ipv4 host s0 s1 s2 s3 in
    (
      record s {
        res_queries = erase_query u.request_no s.res_queries;
        by_name = set_name name (only a) (set_name name (only a) s.by_name);
        notes =
            (s.notes ++ disconnects u.request_no ∷ [])
            ++ cancels_timer u.request_no ∷ resolved client a ∷ [];
      },
      received-decode now w u s ans socket (
            decode-response_ipv4 now i0 i1 f0 f1 q0 q1 q2 q3 low l0 l1 l2 l3 s0 s1 s2 s3 l ls rest h
              hs hl)
          ∙ complete_new u.request_no ans a s1' q client refl refl fits there waits new,
      append_assoc s.notes (disconnects u.request_no ∷ [])
          (cancels_timer u.request_no ∷ resolved client a ∷ []),
      find-erase_query u.request_no s.res_queries once,
      find-set_name name (only a) (set_name name (only a) s.by_name),
    )
