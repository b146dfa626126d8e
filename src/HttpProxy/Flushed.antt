-- ===== src/HttpProxy/Flushed.antt =====
-- src/main.cpp: when what a Remote keeps for its stream is queued on it.
use epoller.Prelude.{
  ℕ, ◌≡◌, ◌⊎◌, refl, sym, ap, ◌∙◌, inl, inr, Bool, true, false, ◌&&◌, ◌||◌, [], Bytes, some, arith,
  Bool-cases, List-cases, >>=-eq-some,
}
use epoller.HttpProxy.{Remote, do_write}
use epoller.HttpProxy as Remote
use epoller.HttpProxy.Client.{Client, received, queue_write, disconnected}
use epoller.HttpProxy.Pair.{
  server_received, with_remote, stream_is, Serving, starts, client_sends, server_sends,
  server_opens, server_completes, client_completes, server_ends, client_ends,
}
use epoller.HttpProxy.Answered.{Gets}
use epoller.HttpProxy.Passed.{Relays}
use epoller.HttpProxy.Sides.{received_passing}
use epoller.HttpProxy.Served.{
  write_complete-Says, server_disconnected-Says, disconnected_passing, Serving-Serves,
}

-- The Remote's stream exists, and nothing is kept for it: all that the Remote was given has been queued.
abbrev pub AllQueued : Client → Type 0
AllQueued c = (r : Remote) × (c.remote ≡ some r) × (r.stream ≡ true) × (r.init_write ≡ [])

abbrev pub Flushed : Bool → Client → Type 0
Flushed done c = (done ≡ false) ⊎ AllQueued c

-- A write that is complete on a stream that exists queues what was kept.
write_complete-flushes :
    (r : Remote)
    → r.stream ≡ true
    → ((Remote.write_complete r).stream ≡ true) × ((Remote.write_complete r).init_write ≡ [])
unfolding Remote.write_complete
write_complete-flushes r here =
    (ground (arith, here), ground (arith, here, List-cases r.init_write))

do_write-flushed :
    (x : Bytes) (r : Remote)
    → r.stream ≡ true
    → r.init_write ≡ []
    → ((do_write x r).stream ≡ true) × ((do_write x r).init_write ≡ [])
unfolding do_write
do_write-flushed x r here empty = (ground (arith, here, empty), ground (arith, here, empty))

same-Flushed :
    (done : Bool) (c c' : Client) → c'.remote ≡ c.remote → Flushed done c → Flushed done c'
same-Flushed done c c' same (inl not_yet) = inl not_yet
same-Flushed done c c' same (inr (r, there, here, empty)) = inr (r, same ∙ there, here, empty)

received-Flushed :
    (beyond : ℕ) (x : Bytes) (done : Bool) (c c' : Client)
    → received beyond x c ≡ some c'
    → Flushed done c
    → Flushed done c'
received-Flushed beyond x done c c' e (inl not_yet) = inl not_yet
received-Flushed beyond x done c c' e (inr (r, there, here, empty)) =
    let (here', empty') = do_write-flushed x r here empty in
    let same : record c { remote = some (do_write x r) } ≡ c' =
      ground (arith, e, received_passing beyond x c r there) in
    inr (do_write x r, ap (λ (q : Client). q.remote) (sym same), here', empty')

server_received-remote : (x : Bytes) (c : Client) → (server_received x c).remote ≡ c.remote
unfolding server_received queue_write
server_received-remote x c = ground arith

with_remote-there :
    (f : Remote → Remote) (c : Client) (r : Remote)
    → c.remote ≡ some r
    → (with_remote f c).remote ≡ some (f r)
with_remote-there f c r there = ground (arith, there)

opens-Flushed :
    (exists done : Bool) (c : Client)
    → Flushed done c
    → Flushed (done && exists) (with_remote (stream_is exists) c)
opens-Flushed false done c f = inl (ground (arith, Bool-cases done))
opens-Flushed true done c (inl not_yet) = inl (ground (arith, not_yet))
opens-Flushed true done c (inr (r, there, here, empty)) =
    inr (stream_is true r, with_remote-there (stream_is true) c r there, refl, empty)

completes-Flushed :
    (done : Bool) (c : Client) (r : Remote)
    → c.remote ≡ some r
    → Flushed done c
    → Flushed (done || r.stream) (with_remote Remote.write_complete c)
completes-Flushed done c r there f = elim (Bool-cases r.stream) [
  | inl here ↦
      let (here', empty') = write_complete-flushes r here in
      inr
        (Remote.write_complete r, with_remote-there Remote.write_complete c r there, here', empty')
  | inr away ↦ elim f [
    | inl not_yet ↦ inl (ground (arith, not_yet, away))
    | inr (q, there', here, empty) ↦ absurd (ground (arith, there, there', here, away))
  ]
]

disconnect-keeps :
    (empty : Bool) (r r' : Remote)
    → Remote.disconnect empty r ≡ some r'
    → (r'.stream ≡ r.stream) × (r'.init_write ≡ r.init_write)
unfolding Remote.disconnect
disconnect-keeps empty r r' e = (ground (arith, e), ground (arith, e))

disconnected-Flushed :
    (empty done : Bool) (c c' : Client)
    → disconnected empty c ≡ some c'
    → Flushed done c
    → Flushed done c'
disconnected-Flushed empty done c c' e (inl not_yet) = inl not_yet
disconnected-Flushed empty done c c' e (inr (r, there, here, nothing_kept)) =
    let (r', made, end) =
      >>=-eq-some (Remote.disconnect empty r) (λ r'. some (record c { remote = some r' }))
        (disconnected_passing empty c r there ∙ e) in
    let same : record c { remote = some r' } ≡ c' = ground (arith, end) in
    let (here', kept) = disconnect-keeps empty r r' made in
    inr (r', ap (λ (q : Client). q.remote) (sym same), here' ∙ here, kept ∙ nothing_kept)

Serving-Flushed :
    (sent answered : Bytes) (done : Bool) (c : Client)
    → Serving sent answered done c
    → Flushed done c
Serving-Flushed sent answered _ c (starts dest) = inl refl
Serving-Flushed _ _ _ c' (client_sends {sent} {answered} {done} {c} beyond x s other e) =
    received-Flushed beyond x done c c' e (Serving-Flushed sent answered done c s)
Serving-Flushed _ _ _ c' (server_sends {sent} {answered} {done} {c} r x s there) =
    same-Flushed done c c' (server_received-remote x c) (Serving-Flushed sent answered done c s)
Serving-Flushed _ _ _ c' (server_opens {sent} {answered} {done} {c} exists s) =
    opens-Flushed exists done c (Serving-Flushed sent answered done c s)
Serving-Flushed _ _ _ c' (server_completes {sent} {answered} {done} {c} r s there) =
    completes-Flushed done c r there (Serving-Flushed sent answered done c s)
Serving-Flushed _ _ _ c' (client_completes {sent} {answered} {done} {c} did_connect end_point s) =
    same-Flushed done c c' (write_complete-Says did_connect end_point c).1
      (Serving-Flushed sent answered done c s)
Serving-Flushed _ _ _ c' (server_ends {sent} {answered} {done} {c} empty s) =
    same-Flushed done c c' (server_disconnected-Says empty c).1
      (Serving-Flushed sent answered done c s)
Serving-Flushed _ _ _ c' (client_ends {sent} {answered} {done} {c} empty s e) =
    disconnected-Flushed empty done c c' e (Serving-Flushed sent answered done c s)

-- While the stream to the client and the Remote exist, whatever the client and the server send, and
-- whatever writes are complete, streams made and sides ended: the Remote is given all that the client has
-- sent, in that order, behind the header where that is a CONNECT's; once a write has been complete on the
-- Remote's stream since that came to exist, all of it is queued on that stream and nothing is kept; and the
-- client is given all that the server has sent, in that order, behind one reply where the header is a
-- CONNECT's, and nothing before there is a Remote.
pub Serving-Gets :
    (sent answered : Bytes) (done : Bool) (c : Client)
    → Serving sent answered done c
    → (c.stream ≡ true) × Relays sent c × Gets answered c × ((done ≡ false) ⊎ AllQueued c)
Serving-Gets sent answered done c s =
    let (here, relays, gets) = Serving-Serves sent answered done c s in
    (here, relays, gets, Serving-Flushed sent answered done c s)
