-- ===== src/TcpConn.antt =====
-- src/tcpconn.cpp, and Socket::destFromString of src/socket.cpp: a connection to a destination that is
-- given by text, an address or a name.
pub mod Once
pub mod Dest
mod Tests
use epoller.Prelude.{
  ℕ, ◌+◌, Bool, true, false, List, [], ◌∷◌, ◌++◌, Bytes, if◌then◌else◌, Option, none, some,
}
use epoller.Endian.{Host}
use epoller.IpAddr.{IpAddr, InetDest, set}

-- inet_pton() for the two families: the bytes that it stores, or none where it gives no success.
pub record InetPton : Type 0 where
  pub inet : Bytes → Option Bytes
  pub inet6 : Bytes → Option Bytes

-- "::ffff:"
abbrev pub mapped_text : Bytes
mapped_text = b':' ∷ b':' ∷ b'f' ∷ b'f' ∷ b'f' ∷ b'f' ∷ b':' ∷ []

abbrev pub is_stored : Option Bytes → Bool
is_stored none = false
is_stored (some b) = true

-- The array after a call that may have stored nothing.
abbrev pub stored : Option Bytes → Bytes → Bytes
stored none addr = addr
stored (some b) addr = b

-- destFromString. `unset` is what the array holds that nothing has been stored to, and `stale` what it
-- holds where only the IPv4 address has been stored. ifIndex, which is never set, is 0 here.
unfoldable pub dest_from_string : InetPton → Host → Bytes → Bytes → Bytes → ℕ → InetDest
dest_from_string pton host unset stale where' port =
    let answer =
      if is_stored (pton.inet where')
      then pton.inet6 (mapped_text ++ where')
      else pton.inet6 where' in
    let rest = if is_stored (pton.inet where') then stale else unset in
    record {
      addr = set host (stored answer rest);
      valid = is_stored answer;
      port = port;
      if_index = 0;
    }

-- What a TcpConn makes others do: a stream is created, its client is told, the resolver is asked or told
-- that nobody waits any more.
pub data Effect : Type 0 where
  creates_stream : InetDest → Effect
  client_disconnected : Effect
  cancels : Effect
  asks : Bytes → Effect

-- class TcpConn: whether it still has its client, and whether it refers to itself.
pub record TcpConn : Type 0 where
  pub client : Bool
  pub self : Bool
  pub port : ℕ
  pub effects : List Effect

abbrev emit : Effect → TcpConn → TcpConn
emit e c = record c { effects = c.effects ++ e ∷ [] }

-- The constructor, with the reference to itself that create makes.
unfoldable pub new_conn : ℕ → TcpConn
new_conn port = record { client = true; self = true; port = port; effects = [] }

-- What TcpConnection::create makes: a stream at once, or a TcpConn that waits for the resolver.
pub data Created : Type 0 where
  direct : Effect → Created
  waiting : TcpConn → Created

-- TcpConnection::create.
unfoldable pub create : InetPton → Host → Bytes → Bytes → Bytes → ℕ → Created
unfolding dest_from_string new_conn
create pton host unset stale where' port =
    let dest = dest_from_string pton host unset stale where' port in
    if dest.valid
    then direct (creates_stream dest)
    else waiting (emit (asks where') (new_conn port))

-- doConnect.
unfoldable pub do_connect : InetDest → TcpConn → TcpConn
do_connect dest c =
    let c' = if c.client then emit (creates_stream dest) (record c { client = false }) else c in
    record c' { self = false }

-- resolved.
unfoldable pub resolved : IpAddr → TcpConn → TcpConn
unfolding do_connect
resolved addr c = do_connect (record { addr = addr; valid = true; port = c.port; if_index = 0 }) c

-- notResolved.
unfoldable pub not_resolved : TcpConn → TcpConn
not_resolved c = record c { self = false }

-- ~TcpConn.
unfoldable pub destroy : TcpConn → TcpConn
destroy c = let c' = emit cancels c in if c'.client then emit client_disconnected c' else c'
