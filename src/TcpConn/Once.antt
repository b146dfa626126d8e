-- ===== src/TcpConn/Once.antt =====
-- src/tcpconn.cpp: what a client gets in the end.
use epoller.Prelude.{
  ℕ, Bytes, ◌≡◌, refl, inl, inr, Bool, true, false, List, [], ◌∷◌, ◌++◌, if◌then◌else◌, count_if,
  arith, Bool-cases,
}
use epoller.Prelude.Count.{count_if-append}
use epoller.Endian.{Host}
use epoller.IpAddr.{IpAddr, InetDest}
use epoller.TcpConn.{
  TcpConn, Effect, creates_stream, client_disconnected, cancels, new_conn, do_connect, resolved,
  asks, InetPton, Created, direct, waiting, create, dest_from_string, not_resolved, destroy,
}

-- What the resolver may tell a TcpConn.
pub data Answer : Type 0 where
  found : IpAddr → Answer
  not_found : Answer

unfoldable pub tell : Answer → TcpConn → TcpConn
tell (found addr) c = resolved addr c
tell not_found c = not_resolved c

unfoldable pub tell_all : List Answer → TcpConn → TcpConn
tell_all [] c = c
tell_all (a ∷ more) c = tell_all more (tell a c)

-- Is it the end of the client's wait?
abbrev pub ends_wait : Effect → Bool
ends_wait (creates_stream dest) = true
ends_wait client_disconnected = true
ends_wait cancels = false
ends_wait (asks dest) = false

-- While the client is there its wait has not ended, and afterwards it has, once.
abbrev Waits : TcpConn → Type 0
Waits c = count_if ends_wait c.effects ≡ (if c.client then 0 else 1)

tell-Waits : (a : Answer) (c : TcpConn) → Waits c → Waits (tell a c)
unfolding tell resolved not_resolved do_connect
tell-Waits (found addr) c h =
    let dest : InetDest = record { addr = addr; valid = true; port = c.port; if_index = 0 } in
    elim (Bool-cases c.client) [
      | inl here ↦
          ground (arith, here, count_if-append ends_wait c.effects (creates_stream dest ∷ []))
      | inr gone ↦ ground (arith, gone)
    ]
tell-Waits not_found c h = h

tell_all-Waits : (answers : List Answer) (c : TcpConn) → Waits c → Waits (tell_all answers c)
unfolding tell_all
tell_all-Waits [] c h = h
tell_all-Waits (a ∷ more) c h = tell_all-Waits more (tell a c) (tell-Waits a c h)

destroy-Waits : (c : TcpConn) → Waits c → count_if ends_wait (destroy c).effects ≡ 1
unfolding destroy
destroy-Waits c h = elim (Bool-cases c.client) [
  | inl here ↦ ground (
    arith,
    here,
    h,
    count_if-append ends_wait c.effects (cancels ∷ []),
    count_if-append ends_wait (c.effects ++ cancels ∷ []) (client_disconnected ∷ []),
  )
  | inr gone ↦ ground (arith, gone, h, count_if-append ends_wait c.effects (cancels ∷ []))
]

-- All that comes of a connection: of a TcpConn, after the resolver's answers and its end.
abbrev pub effects_of : List Answer → Created → List Effect
effects_of answers (direct effect) = effect ∷ []
effects_of answers (waiting c) = (destroy (tell_all answers c)).effects

-- Whether create is given an address or a name, and however often and in whatever order the resolver
-- answers, by the time that the TcpConn, where there is one, has been destroyed, the client has either
-- got a stream, once, or has been told once that it is disconnected, never both.
pub create_once :
    (pton : InetPton) (host : Host) (unset stale where' : Bytes) (port : ℕ) (answers : List Answer)
    → count_if ends_wait (effects_of answers (create pton host unset stale where' port)) ≡ 1
unfolding create new_conn
create_once pton host unset stale where' port answers =
    let dest = dest_from_string pton host unset stale where' port in
    elim (Bool-cases dest.valid) [
      | inl address ↦ rw (create, address)
      | inr name ↦
          let c : TcpConn = record (new_conn port) { effects = asks where' ∷ [] } in
          rw (create, name) (destroy-Waits (tell_all answers c) (tell_all-Waits answers c refl))
    ]
