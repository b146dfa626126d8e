-- ===== src/HttpProxy/Answered.antt =====
-- src/main.cpp: what the client of the proxy gets, and what the server gets.
use epoller.Prelude.{
  flat, flat-append, ℕ, ◌+◌, ◌≡◌, ◌⊎◌, refl, sym, ap, ◌∙◌, inl, inr, true, [], ◌∷◌, ◌++◌, Bytes,
  some, length, ltb, arith, Option-cases, Bool-cases,
}
use epoller.HttpProxy.Relay.{}
use epoller.HttpProxy.Header.{found, scan_host}
use epoller.HttpProxy.Client.{
  Client, reply, double_cr, connect_method, disconnect_stream, queue_write, connect_remote,
  handle_header,
}

-- What the client has got: nothing before a Remote has been made, what the server has sent, or the reply to
-- a CONNECT and then what the server has sent.
pub data Gets (answered : Bytes) (c : Client) : Type 0 where
  nothing : c.created ≡ [] → flat c.queued ≡ [] → answered ≡ [] → Gets answered c
  answers :
      (host : Bytes) → c.created ≡ (host, 80) ∷ [] → flat c.queued ≡ answered → Gets answered c
  replies :
      (host : Bytes)
      → c.created ≡ (host, 443) ∷ []
      → flat c.queued ≡ reply ++ answered
      → Gets answered c

-- How received changes what is queued for the client.
abbrev pub Queues : Client → Client → Type 0
Queues c c' =
    (c'.stream ≡ c.stream)
    × (((c'.created ≡ c.created) × (c'.queued ≡ c.queued))
        ⊎ ((host : Bytes) × (c'.created ≡ c.created ++ (host, 80) ∷ []) × (c'.queued ≡ c.queued))
        ⊎ ((host : Bytes) × (c'.created ≡ c.created ++ (host, 443) ∷ [])
            × (c'.queued ≡ c.queued ++ reply ∷ [])))

connect_remote-Queues :
    (second : ℕ) (host : Bytes) (c : Client)
    → c.stream ≡ true
    → Queues c (connect_remote second host c)
unfolding connect_remote queue_write
connect_remote-Queues second host c here = elim (Option-cases (found c.header connect_method)) [
  | inl plain ↦ rw (connect_remote, plain) (refl, inr (inl (host, refl, refl)))
  | inr (at, connects) ↦
      rw (connect_remote, connects, queue_write, here) (refl, inr (inr (host, refl, refl)))
]

Queues-same : (c c' : Client) → c ≡ c' → Queues c c'
Queues-same c c' e = (
  sym (ap (λ (x : Client). x.stream) e),
  inl (sym (ap (λ (x : Client). x.created) e), sym (ap (λ (x : Client). x.queued) e)),
)

disconnect_stream-Queues : (c : Client) → Queues c (disconnect_stream c)
disconnect_stream-Queues c = elim (Bool-cases c.stream) [
  | inl here ↦ rw here (refl, inl (refl, refl))
  | inr away ↦ rw away (refl, inl (refl, refl))
]

pub handle_header-Queues :
    (beyond : ℕ) (c c' : Client) → c.stream ≡ true → handle_header beyond c ≡ some c' → Queues c c'
unfolding handle_header
handle_header-Queues beyond c c' here e = elim (Bool-cases (ltb (length c.header) 4)) [
  | inl short ↦ Queues-same c c' (ground (arith, e, short))
  | inr long ↦ elim (Option-cases (found c.header double_cr)) [
    | inl endless ↦
        let same : disconnect_stream c ≡ c' = ground (arith, e, long, endless) in
        rw (← same) (disconnect_stream-Queues c)
    | inr (second, ended) ↦
        elim (Option-cases (scan_host beyond (length c.header + 1) c.header [])) [
          | inl broken ↦ absurd (ground (arith, e, long, ended, broken))
          | inr (host, scanned) ↦
              let same : connect_remote second host c ≡ c' =
                ground (arith, e, long, ended, scanned) in
              rw (← same) (connect_remote-Queues second host c here)
        ]
  ]
]

pub Gets-same :
    (answered : Bytes) (c c' : Client)
    → c'.created ≡ c.created
    → c'.queued ≡ c.queued
    → Gets answered c
    → Gets answered c'
Gets-same answered c c' made queue (nothing start empty none_sent) =
    nothing (made ∙ start) (ap flat queue ∙ empty) none_sent
Gets-same answered c c' made queue (answers host start all) =
    answers host (made ∙ start) (ap flat queue ∙ all)
Gets-same answered c c' made queue (replies host start all) =
    replies host (made ∙ start) (ap flat queue ∙ all)

-- A Remote is made, or not yet.
pub made-Gets :
    (answered : Bytes) (c c' : Client)
    → c.created ≡ []
    → Queues c c'
    → Gets answered c
    → Gets answered c'
made-Gets answered c c' new (stream, inl (made, queue)) g = Gets-same answered c c' made queue g
made-Gets answered c c' new (stream, inr (inl (host, made, queue)))
      (nothing start empty none_sent) =
    answers host (made ∙ ap (λ x. x ++ (host, 80) ∷ []) new) (ap flat queue ∙ empty ∙ sym none_sent)
made-Gets answered c c' new (stream, inr (inr (host, made, queue)))
      (nothing start empty none_sent) =
    replies host (made ∙ ap (λ x. x ++ (host, 443) ∷ []) new) (
      ap flat queue
      ∙ flat-append c.queued reply
      ∙ ap (λ x. x ++ reply) empty
      ∙ sym (ap (λ x. reply ++ x) none_sent))
made-Gets answered c c' new (stream, inr other) (answers host start all) = cc
made-Gets answered c c' new (stream, inr other) (replies host start all) = cc
