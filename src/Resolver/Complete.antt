-- ===== src/Resolver/Complete.antt =====
-- src/resolverimpl.cpp: what resolve and requestComplete tell the client.
use epoller.Prelude.{
  ℕ, ◌≡◌, ◌≢◌, ◌⊎◌, ◌≤◌, refl, ap, ◌∙◌, inl, inr, Bool, List, [], ◌∷◌, ◌++◌, Bytes, ◌==◌, Option,
  none, some, count_if, arith, List-cases,
}
use epoller.IpAddr.{IpAddr}
use epoller.Query.Message.{Qanswer}
use epoller.Resolver.Names.{AddrPref, Names}
use epoller.Resolver.Requests.{
  ResolverQuery, ResolverImpl, cancels_timer, outcome, find_query, set_query, erase_query, back,
  pop_back, put_answer, request_complete, resolve, find_name, set_name, note,
}
use epoller.Resolver.Answers.{
  Indexed, Fits, put_answer-Indexed, answer_for_total, get_addr-Fits, find_name-HasIndex,
  set_name-Indexed,
}

back-append : (front : List ℕ) (c : ℕ) → back (front ++ c ∷ []) ≡ some c
unfolding back
back-append [] c = refl
back-append (d ∷ []) c = refl
back-append (d ∷ e ∷ front) c = back-append (e ∷ front) c

pop_back-append : (front : List ℕ) (c : ℕ) → pop_back (front ++ c ∷ []) ≡ front
unfolding pop_back
pop_back-append [] c = refl
pop_back-append (d ∷ []) c = refl
pop_back-append (d ∷ e ∷ front) c = ap (λ cs. d ∷ cs) (pop_back-append (e ∷ front) c)

pub find-set_query :
    (id : ℕ) (q : ResolverQuery) (queries : List (ℕ × ResolverQuery))
    → find_query id (set_query id q queries) ≡ some q
unfolding find_query set_query
find-set_query id q [] = ground arith
find-set_query id q ((k, old) ∷ more) = ground (arith, find-set_query id q more)

-- Is the request at this number?
abbrev pub at_request : ℕ → ℕ × ResolverQuery → Bool
at_request id (k, q) = k == id

find_query-none :
    (id : ℕ) (queries : List (ℕ × ResolverQuery))
    → count_if (at_request id) queries ≡ 0
    → find_query id queries ≡ none
unfolding find_query
find_query-none id [] h = refl
find_query-none id ((k, q) ∷ more) h = ground (arith, find_query-none id more)

pub find-erase_query :
    (id : ℕ) (queries : List (ℕ × ResolverQuery))
    → count_if (at_request id) queries ≤ 1
    → find_query id (erase_query id queries) ≡ none
unfolding find_query erase_query
find-erase_query id [] h = refl
find-erase_query id ((k, q) ∷ more) h =
    ground (arith, find-erase_query id more, find_query-none id more)

-- An answer to a request that is open: while more answers are awaited no client is told, and the
-- request stays open for one answer fewer. With the last one the request is closed and its timer
-- cancelled, and its client is told, once, either of an address that suits its preference or that
-- there is none. No vector is read when it is empty.
pub request_complete_tells :
    (req_no : ℕ) (ans : Qanswer) (s : ResolverImpl) (q : ResolverQuery) (front : List ℕ) (c : ℕ)
    → Indexed s.by_name
    → count_if (at_request req_no) s.res_queries ≤ 1
    → find_query req_no s.res_queries ≡ some q
    → q.clients ≡ front ++ c ∷ []
    → (s' : ResolverImpl) × (request_complete req_no ans s ≡ some s')
      × Indexed s'.by_name
      × (((front ≢ [])
            × (s'.notes ≡ s.notes)
            × (find_query req_no s'.res_queries ≡ some (record q { clients = front })))
          ⊎ ((front ≡ [])
              × (found : Option IpAddr) × (s'.notes
                  ≡ s.notes ++ cancels_timer req_no ∷ outcome c found ∷ [])
              × Fits q.prefs found
              × (find_query req_no s'.res_queries ≡ none)))
unfolding request_complete
request_complete_tells req_no ans s q front c v once open_query waiting =
    let last : back q.clients ≡ some c = ap back waiting ∙ back-append front c in
    let left : pop_back q.clients ≡ front = ap pop_back waiting ∙ pop_back-append front c in
    let kept = put_answer-Indexed ans s.by_name v in
    elim (List-cases front) [
      | inl empty ↦
          let (found, by_name, e, indexed, fits) =
            answer_for_total q.prefs ans.name (put_answer ans s.by_name) kept in
          (
            record s {
              res_queries = erase_query req_no s.res_queries;
              by_name = by_name;
              notes = s.notes ++ cancels_timer req_no ∷ outcome c found ∷ [];
            },
            rw (request_complete, open_query, last, left, empty, e),
            indexed,
            inr (empty, found, refl, fits, find-erase_query req_no s.res_queries once),
          )
      | inr (d, ds, full) ↦ (
        record s {
          res_queries = set_query req_no (record q { clients = d ∷ ds }) s.res_queries;
          by_name = put_answer ans s.by_name;
        },
        rw (request_complete, open_query, last, left, full),
        kept,
        inl (
          λ empty. cc,
          refl,
          rw full (find-set_query req_no (record q { clients = d ∷ ds }) s.res_queries),
        ),
      )
    ]

-- resolve of a name that is kept tells the client at once, of an address that suits or that there is
-- none; it opens no request.
resolve_known :
    (client : ℕ) (name : Bytes) (prefs : AddrPref) (timeout : ℕ) (s : ResolverImpl) (names : Names)
    → Indexed s.by_name
    → find_name name s.by_name ≡ some names
    → (s' : ResolverImpl) × (found : Option IpAddr) × (resolve client name prefs timeout s
        ≡ some s')
      × Indexed s'.by_name
      × (s'.res_queries ≡ s.res_queries)
      × (s'.notes ≡ s.notes ++ outcome client found ∷ [])
      × Fits prefs found
unfolding resolve
resolve_known client name prefs timeout s names v known =
    let (found, names', e, kept, fits) =
      get_addr-Fits prefs names (find_name-HasIndex name s.by_name names v known) in
    (
      note (outcome client found) (record s { by_name = set_name name names' s.by_name }),
      found,
      rw (resolve, known, e),
      set_name-Indexed name names' s.by_name kept v,
      refl,
      refl,
      fits,
    )
