-- ===== src/Resolver/Tests.antt =====
-- Runs of src/resolverimpl.cpp, and the theorems at them.
use epoller.Prelude.{
  ℕ, ◌+◌, ◌≡◌, ◌≢◌, ◌⊎◌, refl, true, inl, [], ◌∷◌, Bytes, List, arith, Option, some, none,
}
use epoller.Endian.{little}
use epoller.IpAddr.{IpAddr, set_ipv4}
use epoller.Query.Message.{Qanswer, host, qtype_a}
use epoller.Query.Name.Wire.{IsLabel}
use epoller.Query.Response.Address.{response_header, raw_ipv4, response_ipv4}
use epoller.Resolver.Names.{ipv4_only, ipv6_only, any_addr, Names}
use epoller.Resolver.Requests.{
  ResolverQuery, ResolverImpl, cancels_timer, asks, sets_timer, resolved, not_resolved, disconnects,
  outcome, find_query, find_name, same_name, resolve, query_timedout, request_complete, back,
}
use epoller.Resolver.Udp.{UdpResolver, new_impl, received}
use epoller.Resolver.Flow.{Reply, message, address, asking, resolve_flow}
use epoller.Resolver.Replies.{only, received-resolves}
use epoller.Resolver.Answers.{Indexed, Fits}
use epoller.Resolver.Complete.{request_complete_tells}
use epoller.Resolver.Timeouts.{Ends, nil, cons, query_timedout_drops, ipv6_only_timeout}

abbrev an_ipv4 : IpAddr
an_ipv4 = set_ipv4 little 10 0 0 1

abbrev an_ipv6 : IpAddr
an_ipv6 = record { d = 0x2001 ∷ 0 ∷ 0 ∷ 0 ∷ 0 ∷ 0 ∷ 0 ∷ 1 ∷ [] }

abbrev two_names : Names
two_names = record { last_access_index = 1; addrs = an_ipv4 ∷ an_ipv6 ∷ [] }

-- A request for any address, of which one answer has come, and one for IPv4 only.
abbrev half_done : ResolverQuery
half_done = record { prefs = any_addr; clients = 50 ∷ []; resolvers = 4 ∷ [] }

abbrev just_begun : ResolverQuery
just_begun = record { prefs = ipv4_only; clients = 60 ∷ []; resolvers = 5 ∷ [] }

abbrev host_name : Bytes
host_name = b'h' ∷ b'o' ∷ b's' ∷ b't' ∷ []

abbrev new_name : Bytes
new_name = b'a' ∷ b'.' ∷ b'b' ∷ []

abbrev two_requests : ResolverImpl
two_requests = record {
  res_queries = (4, half_done) ∷ (5, just_begun) ∷ [];
  by_name = (host_name, two_names) ∷ [];
  request = 6;
  notes = [];
}

abbrev an_answer : Qanswer
an_answer = record {
  valid = true;
  req_no = 4;
  name = new_name;
  addr = an_ipv4 ∷ [];
  ttl = none;
  time_stamp = 0;
}

two_requests-find : find_query 4 two_requests.res_queries ≡ some half_done
unfolding find_query
two_requests-find = refl

two_requests-name : find_name host_name two_requests.by_name ≡ some two_names
unfolding find_name same_name
two_requests-name = refl

two_requests-new_name : find_name new_name two_requests.by_name ≡ none
unfolding find_name same_name
two_requests-new_name = refl

abbrev none_left : List ℕ
none_left = []

request_complete_tells_example :
    (s' : ResolverImpl) × (request_complete 4 an_answer two_requests ≡ some s')
    × Indexed s'.by_name
    × (((none_left ≢ [])
          × (s'.notes ≡ [])
          × (find_query 4 s'.res_queries ≡ some (record half_done { clients = [] })))
        ⊎ ((none_left ≡ [])
            × (found : Option IpAddr) × (s'.notes ≡ cancels_timer 4 ∷ outcome 50 found ∷ [])
            × Fits any_addr found
            × (find_query 4 s'.res_queries ≡ none)))
request_complete_tells_example =
    request_complete_tells 4 an_answer two_requests half_done [] 50 (inl (omega arith), tt)
      (omega arith) two_requests-find refl

two_requests-Ends : Ends two_requests.res_queries (50 ∷ 60 ∷ []) (4 ∷ 5 ∷ [])
unfolding back
two_requests-Ends = cons refl refl (cons refl refl nil)

-- The first request times out, and only the client of the second one is told.
query_timedout_drops_example :
    query_timedout (λ r. true) 4 two_requests
    ≡ some (record two_requests {
      res_queries = [];
      notes = disconnects 4 ∷ disconnects 5 ∷ not_resolved 60 ∷ [];
    })
query_timedout_drops_example =
    query_timedout_drops (λ r. true) 4 half_done [] ((5, just_begun) ∷ []) 50 (60 ∷ []) (4 ∷ 5 ∷ [])
      two_requests refl refl two_requests-Ends

ipv6_only_timeout_example :
    (s' : ResolverImpl) × (resolve 70 new_name ipv6_only 9 two_requests ≡ some s')
    × (query_timedout (λ r. true) 6 s' ≡ none)
ipv6_only_timeout_example =
    ipv6_only_timeout (λ r. true) 70 9 new_name two_requests two_requests-new_name

-- A response comes for the second request.
abbrev second_asking : UdpResolver
second_asking = record { request_no = 5; name = new_name; q_type = qtype_a; socket = true }

abbrev label_a : Bytes
label_a = b'a' ∷ []

abbrev label_b : Bytes
label_b = b'b' ∷ []

label_a-IsLabel : IsLabel label_a
label_a-IsLabel = record { chars = ground arith; nonempty = omega arith; short = omega arith }

label_b-IsLabel : IsLabel label_b
label_b-IsLabel = record { chars = ground arith; nonempty = omega arith; short = omega arith }

just_begun-find : find_query 5 two_requests.res_queries ≡ some just_begun
unfolding find_query
just_begun-find = refl

received-resolves_example :
    (s' : ResolverImpl) × (received
        (λ k. 100 + k)
        (response_ipv4
          (response_header 0 5 0x81 0x80)
          label_a
          (label_b ∷ [])
          (0 ∷ 1 ∷ 0 ∷ 1 ∷ [])
          (raw_ipv4 12 0 0 0 60)
          (10 ∷ 0 ∷ 0 ∷ 9 ∷ []))
        second_asking
        two_requests
      ≡ some s')
    × (s'.notes ≡ disconnects 5 ∷ cancels_timer 5 ∷ resolved 60 (set_ipv4 host 10 0 0 9) ∷ [])
    × (find_query 5 s'.res_queries ≡ none)
    × (find_name new_name s'.by_name ≡ some (only (set_ipv4 host 10 0 0 9)))
received-resolves_example =
    received-resolves (λ k. 100 + k) 0 5 0x81 0x80 0 1 0 1 12 0 0 0 60 10 0 0 9 label_a
      (label_b ∷ []) [] second_asking two_requests just_begun 60 label_a-IsLabel
      (label_b-IsLabel, tt) (omega arith) refl just_begun-find (omega arith) refl refl
      two_requests-new_name

-- The name is asked for twice, from the start.
abbrev a_reply : Reply
a_reply = record {
  i0 = 0;
  i1 = 5;
  f0 = 0x81;
  f1 = 0x80;
  q0 = 0;
  q1 = 1;
  q2 = 0;
  q3 = 1;
  low = 12;
  l0 = 0;
  l1 = 0;
  l2 = 0;
  l3 = 60;
  s0 = 10;
  s1 = 0;
  s2 = 0;
  s3 = 9;
  rest = [];
}

new_impl-unknown : find_name new_name new_impl.by_name ≡ none
unfolding find_name
new_impl-unknown = refl

resolve_flow_example :
    (s1 : ResolverImpl) × (s2 : ResolverImpl) × (s3 : ResolverImpl) × (resolve 60 new_name ipv4_only
        9 new_impl
      ≡ some s1)
    × (received (λ k. 100 + k) (message a_reply label_a (label_b ∷ [])) (asking 0 new_name) s1
        ≡ some s2)
    × (resolve 61 new_name ipv4_only 9 s2 ≡ some s3)
    × (s3.notes
        ≡ asks 0 new_name qtype_a
          ∷ sets_timer 0 9
          ∷ disconnects 0
          ∷ cancels_timer 0
          ∷ resolved 60 (address a_reply)
          ∷ resolved 61 (address a_reply)
          ∷ [])
    × (find_query 0 s3.res_queries ≡ none)
resolve_flow_example =
    resolve_flow (λ k. 100 + k) a_reply label_a (label_b ∷ []) 60 61 9 9 new_impl label_a-IsLabel
      (label_b-IsLabel, tt) (omega arith) new_impl-unknown refl
