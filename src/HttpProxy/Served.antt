-- ===== src/HttpProxy/Served.antt =====
-- src/main.cpp: the two sides of the proxy together, through every call.
use epoller.Prelude.{
  flat-append, ◌≡◌, refl, ap, ◌∙◌, inl, inr, Bool, [], ◌∷◌, ◌++◌, Bytes, some, ◌>>=◌, arith,
  Option-cases, append_assoc, >>=-eq-some,
}
use epoller.IpAddr.{InetDest}
use epoller.HttpProxy.{Remote, do_write}
use epoller.HttpProxy as Remote
use epoller.HttpProxy.Relay.{given, write_complete-given, disconnect-given}
use epoller.HttpProxy.Passed.{Relays, waits, passes, tunnels}
use epoller.HttpProxy.Client.{
  Client, reply, queue_write, write_complete, disconnect_client, disconnected,
}
use epoller.HttpProxy.Pair.{
  server_received, server_disconnected, with_remote, stream_is, Serving, starts, client_sends,
  server_sends, server_opens, server_completes, client_completes, server_ends, client_ends,
}
use epoller.HttpProxy.Answered.{Gets, nothing, answers, replies, Gets-same}
use epoller.HttpProxy.Sides.{Serves, received-Serves, Relays-same, Relays-remote}

with_remote-Serves :
    (f : Remote → Remote) (sent answered : Bytes) (c : Client)
    → ((r : Remote) → given (f r) ≡ given r)
    → Serves sent answered c
    → Serves sent answered (with_remote f c)
with_remote-Serves f sent answered c keep (here, relays, gets) = elim (Option-cases c.remote) [
  | inl alone ↦
      let same : with_remote f c ≡ c = ground (arith, alone) in rw same (here, relays, gets)
  | inr (r, there) ↦
      let same : with_remote f c ≡ record c { remote = some (f r) } = ground (arith, there) in
      rw same (
        here,
        Relays-remote sent c (record c { remote = some (f r) })
            (λ alone. absurd (ground (arith, alone, there)))
            (λ r' there'. (
              f r',
              keep r',
              ap (λ q. record c { remote = some (f q) }) (ground (arith, there, there')),
            ))
            relays,
        Gets-same answered c (record c { remote = some (f r) }) refl refl gets,
      )
]

-- What the server sends is queued behind what it has sent before.
queued-Gets :
    (sent answered x : Bytes) (c : Client) (r : Remote)
    → c.remote ≡ some r
    → Relays sent c
    → Gets answered c
    → Gets (answered ++ x) (record c { queued = c.queued ++ x ∷ [] })
queued-Gets sent answered x c r there (waits alone kept start) g =
    absurd (ground (arith, alone, there))
queued-Gets sent answered x c r there relays (answers host start all) =
    answers host start (flat-append c.queued x ∙ ap (λ y. y ++ x) all)
queued-Gets sent answered x c r there relays (replies host start all) =
    replies host start
      (flat-append c.queued x ∙ ap (λ y. y ++ x) all ∙ append_assoc reply answered x)
queued-Gets sent answered x c r there (passes r' host there' start split)
      (nothing new empty none_sent) =
    absurd (ground (arith, start, new))
queued-Gets sent answered x c r there (tunnels r' host before there' start split)
      (nothing new empty none_sent) =
    absurd (ground (arith, start, new))

server_received-Serves :
    (sent answered x : Bytes) (c : Client) (r : Remote)
    → c.remote ≡ some r
    → Serves sent answered c
    → Serves sent (answered ++ x) (server_received x c)
unfolding server_received queue_write
server_received-Serves sent answered x c r there (here, relays, gets) =
    let c' : Client = record c { queued = c.queued ++ x ∷ [] } in
    let same : server_received x c ≡ c' = ground (arith, there, here) in
    rw same (
      here,
      Relays-same sent c c' refl refl refl relays,
      queued-Gets sent answered x c r there relays gets,
    )

-- A call that only says something to the client's stream.
abbrev pub Says : Client → Client → Type 0
Says c c' =
    (c'.stream ≡ c.stream)
    × (c'.remote ≡ c.remote)
    × (c'.header ≡ c.header)
    × (c'.created ≡ c.created)
    × (c'.queued ≡ c.queued)

Says-Serves :
    (sent answered : Bytes) (c c' : Client)
    → Says c c'
    → Serves sent answered c
    → Serves sent answered c'
Says-Serves sent answered c c' (stream, remote, header, created, queue) (here, relays, gets) = (
  stream ∙ here,
  Relays-same sent c c' remote header created relays,
  Gets-same answered c c' created queue gets,
)

pub write_complete-Says :
    (did_connect : Bool) (end_point : InetDest) (c : Client)
    → Says c (write_complete did_connect end_point c)
unfolding write_complete
write_complete-Says did_connect end_point c =
    (ground arith, ground arith, ground arith, ground arith, ground arith)

pub server_disconnected-Says : (empty : Bool) (c : Client) → Says c (server_disconnected empty c)
unfolding server_disconnected disconnect_client
server_disconnected-Says empty c =
    (ground arith, ground arith, ground arith, ground arith, ground arith)

pub disconnected_passing :
    (empty : Bool) (c : Client) (r : Remote)
    → c.remote ≡ some r
    → (Remote.disconnect empty r >>= λ r'. some (record c { remote = some r' }))
      ≡ disconnected empty c
unfolding disconnected
disconnected_passing empty c r there = ground (arith, there)

disconnected-Serves :
    (empty : Bool) (sent answered : Bytes) (c c' : Client)
    → disconnected empty c ≡ some c'
    → Serves sent answered c
    → Serves sent answered c'
unfolding disconnected
disconnected-Serves empty sent answered c c' e (here, relays, gets) = elim (Option-cases c.remote) [
  | inl alone ↦ let same : c ≡ c' = ground (arith, e, alone) in rw (← same) (here, relays, gets)
  | inr (r, there) ↦
      let (r', made, end) =
        >>=-eq-some (Remote.disconnect empty r) (λ r'. some (record c { remote = some r' }))
          (disconnected_passing empty c r there ∙ e) in
      let same : record c { remote = some r' } ≡ c' = ground (arith, end) in
      rw (← same) (
        here,
        Relays-remote sent c (record c { remote = some r' })
            (λ alone. absurd (ground (arith, alone, there)))
            (λ q there'.
              let same_r : r ≡ q = ground (arith, there, there') in
              (r', disconnect-given empty r r' made ∙ ap given same_r, refl))
            relays,
        Gets-same answered c (record c { remote = some r' }) refl refl gets,
      )
]

pub Serving-Serves :
    (sent answered : Bytes) (done : Bool) (c : Client)
    → Serving sent answered done c
    → Serves sent answered c
Serving-Serves sent answered _ c (starts dest) =
    (refl, waits refl refl refl, nothing refl refl refl)
Serving-Serves _ _ _ c' (client_sends {sent} {answered} {done} {c} beyond x s other e) =
    received-Serves beyond sent answered x c c' other e (Serving-Serves sent answered done c s)
Serving-Serves _ _ _ c' (server_sends {sent} {answered} {done} {c} r x s there) =
    server_received-Serves sent answered x c r there (Serving-Serves sent answered done c s)
Serving-Serves _ _ _ c' (server_opens {sent} {answered} {done} {c} exists s) =
    with_remote-Serves (stream_is exists) sent answered c (λ r. refl)
      (Serving-Serves sent answered done c s)
Serving-Serves _ _ _ c' (server_completes {sent} {answered} {done} {c} r s there) =
    with_remote-Serves Remote.write_complete sent answered c write_complete-given
      (Serving-Serves sent answered done c s)
Serving-Serves _ _ _ c' (client_completes {sent} {answered} {done} {c} did_connect end_point s) =
    Says-Serves sent answered c c' (write_complete-Says did_connect end_point c)
      (Serving-Serves sent answered done c s)
Serving-Serves _ _ _ c' (server_ends {sent} {answered} {done} {c} empty s) =
    Says-Serves sent answered c c' (server_disconnected-Says empty c)
      (Serving-Serves sent answered done c s)
Serving-Serves _ _ _ c' (client_ends {sent} {answered} {done} {c} empty s e) =
    disconnected-Serves empty sent answered c c' e (Serving-Serves sent answered done c s)
