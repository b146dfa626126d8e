-- ===== src/HttpProxy/Sides.antt =====
-- src/main.cpp: the two sides of the proxy together, through received.
use epoller.Prelude.{ℕ, ◌≡◌, ◌≢◌, refl, sym, ap, ◌∙◌, true, ◌++◌, Bytes, none, some, arith}
use epoller.HttpProxy.{Remote, do_write}
use epoller.HttpProxy.Relay.{given}
use epoller.HttpProxy.Header.{newline}
use epoller.HttpProxy.Passed.{Relays, waits, passes, tunnels, received-Relays}
use epoller.HttpProxy.Client.{Client, double_cr, handle_header, received}
use epoller.HttpProxy.Answered.{Gets, Queues, handle_header-Queues, Gets-same, made-Gets}

abbrev pub Serves : Bytes → Bytes → Client → Type 0
Serves sent answered c = (c.stream ≡ true) × Relays sent c × Gets answered c

received_waiting :
    (beyond : ℕ) (x : Bytes) (c : Client)
    → c.remote ≡ none
    → received beyond x c ≡ handle_header beyond (record c { header = c.header ++ x })
unfolding received
received_waiting beyond x c alone = ground (arith, alone)

pub received_passing :
    (beyond : ℕ) (x : Bytes) (c : Client) (r : Remote)
    → c.remote ≡ some r
    → received beyond x c ≡ some (record c { remote = some (do_write x r) })
unfolding received
received_passing beyond x c r there = ground (arith, there)

created_passing :
    (beyond : ℕ) (x : Bytes) (c c' : Client) (r : Remote)
    → c.remote ≡ some r
    → received beyond x c ≡ some c'
    → (c'.stream ≡ c.stream) × (c'.created ≡ c.created) × (c'.queued ≡ c.queued)
created_passing beyond x c c' r there e =
    let same : record c { remote = some (do_write x r) } ≡ c' =
      ground (arith, e, received_passing beyond x c r there) in
    rw (← same) (refl, refl, refl)

received-Gets :
    (beyond : ℕ) (sent answered x : Bytes) (c c' : Client)
    → received beyond x c ≡ some c'
    → c.stream ≡ true
    → Relays sent c
    → Gets answered c
    → (c'.stream ≡ true) × Gets answered c'
received-Gets beyond sent answered x c c' e here (waits alone kept start) g =
    let q : Queues c c' =
      handle_header-Queues beyond (record c { header = c.header ++ x }) c' here
        (sym (received_waiting beyond x c alone) ∙ e) in
    (q.0 ∙ here, made-Gets answered c c' start q g)
received-Gets beyond sent answered x c c' e here (passes r host there made split) g =
    let (stream, created, queue) = created_passing beyond x c c' r there e in
    (stream ∙ here, Gets-same answered c c' created queue g)
received-Gets beyond sent answered x c c' e here (tunnels r host before there made split) g =
    let (stream, created, queue) = created_passing beyond x c c' r there e in
    (stream ∙ here, Gets-same answered c c' created queue g)

pub received-Serves :
    (beyond : ℕ) (sent answered x : Bytes) (c c' : Client)
    → beyond ≢ newline
    → received beyond x c ≡ some c'
    → Serves sent answered c
    → Serves (sent ++ x) answered c'
received-Serves beyond sent answered x c c' other e (here, relays, gets) =
    let (d, made, relays') = received-Relays beyond sent x c other relays in
    let same : d ≡ c' = ground (arith, e, made) in
    let (here', gets') = received-Gets beyond sent answered x c c' e here relays gets in
    (here', rw same at relays', gets')

-- Calls that leave the remote side, or the client's, as it was.
pub Relays-same :
    (sent : Bytes) (c c' : Client)
    → c'.remote ≡ c.remote
    → c'.header ≡ c.header
    → c'.created ≡ c.created
    → Relays sent c
    → Relays sent c'
Relays-same sent c c' remote header made (waits alone kept start) =
    waits (remote ∙ alone) (header ∙ kept) (made ∙ start)
Relays-same sent c c' remote header made (passes r host there start split) =
    passes r host (remote ∙ there) (made ∙ start) split
Relays-same sent c c' remote header made (tunnels r host before there start split) =
    tunnels r host before (remote ∙ there) (made ∙ start) split

pub Relays-remote :
    (sent : Bytes) (c c' : Client)
    → ((c.remote ≡ none) → c' ≡ c)
    → ((r : Remote)
        → c.remote ≡ some r
        → (r' : Remote) × (given r' ≡ given r) × (c' ≡ record c { remote = some r' }))
    → Relays sent c
    → Relays sent c'
Relays-remote sent c c' idle call (waits alone kept start) =
    rw (idle alone) (waits alone kept start)
Relays-remote sent c c' idle call (passes r host there start split) =
    let (r', same, end) = call r there in rw end (passes r' host refl start (split ∙ sym same))
Relays-remote sent c c' idle call (tunnels r host before there start split) =
    let (r', same, end) = call r there in
    rw end
      (tunnels r' host before refl start (split ∙ ap (λ y. (before ++ double_cr) ++ y) (sym same)))
