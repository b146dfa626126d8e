-- ===== src/HttpProxy/Client.antt =====
-- src/main.cpp: class HttpProxy, the proxy's stream to its client.
use epoller.Prelude.{
  ℕ, ◌+◌, Bool, true, false, not, ◌&&◌, List, [], ◌∷◌, ◌++◌, Bytes, ltb, if◌then◌else◌, Option,
  none, some, length, drop, ◌>>=◌,
}
use epoller.IpAddr.{InetDest}
use epoller.HttpProxy.{Remote, do_write, disconnect}
use epoller.HttpProxy.Header.{found, scan_host}

-- class HttpProxy. `stream` is whether its TcpStream exists, and `remote` the Remote that `ep` refers to.
-- `queued` are the calls of the stream's queueWrite, `disconnects` those of its disconnect, and `created`
-- those of TcpConnection::create, with host and port.
pub record Client : Type 0 where
  pub stream : Bool
  pub header : Bytes
  pub remote : Option Remote
  pub remote_dest : InetDest
  pub disconnect_when_completed : Bool
  pub queued : List Bytes
  pub disconnects : ℕ
  pub created : List (Bytes × ℕ)

abbrev pub double_cr : Bytes
double_cr = 13 ∷ 10 ∷ 13 ∷ 10 ∷ []

abbrev pub connect_method : Bytes
connect_method = b'C' ∷ b'O' ∷ b'N' ∷ b'N' ∷ b'E' ∷ b'C' ∷ b'T' ∷ b' ' ∷ []

-- "HTTP/1.1 200 OK" and two newlines.
abbrev pub reply : Bytes
reply =
    b'H' ∷ b'T' ∷ b'T' ∷ b'P' ∷ b'/' ∷ b'1' ∷ b'.' ∷ b'1' ∷ b' ' ∷ b'2' ∷ b'0' ∷ b'0' ∷ b' ' ∷ b'O'
    ∷ b'K' ∷ 10 ∷ 10 ∷ []

-- A Remote that is made with the header, before its stream exists.
abbrev pub new_remote : Bytes → Remote
new_remote init_write = record {
  stream = false;
  init_write = init_write;
  ep_disconnected = false;
  queued = [];
  disconnects = 0;
}

-- The calls on the stream, where it exists.
abbrev pub disconnect_stream : Client → Client
disconnect_stream c = if c.stream then record c { disconnects = c.disconnects + 1 } else c

unfoldable pub queue_write : Bytes → Client → Client
queue_write x c = if c.stream then record c { queued = c.queued ++ x ∷ [] } else c

-- The end of received: a Remote is made for the host.
unfoldable pub connect_remote : ℕ → Bytes → Client → Client
unfolding queue_write
connect_remote second host c = elim (found c.header connect_method) [
  | none ↦ record c { remote = some (new_remote c.header); created = c.created ++ (host, 80) ∷ [] }
  | some _ ↦
      let header = drop (second + 1) c.header in
      queue_write reply (record c {
        header = header;
        remote = some (new_remote header);
        created = c.created ++ (host, 443) ∷ [];
      })
]

-- What received does with a header: nothing while it is short; a header without an empty line ends the
-- stream.
unfoldable pub handle_header : ℕ → Client → Option Client
unfolding scan_host connect_remote
handle_header beyond c =
    if ltb (length c.header) 4 then some c else elim (found c.header double_cr) [
      | none ↦ some (disconnect_stream c)
      | some second ↦ scan_host beyond (length c.header + 1) c.header [] >>= λ host.
          some (connect_remote second host c)
    ]

-- received, where `beyond` is the byte behind the header in memory.
unfoldable pub received : ℕ → Bytes → Client → Option Client
unfolding handle_header
received beyond x c = elim c.remote [
  | some r ↦ some (record c { remote = some (do_write x r) })
  | none ↦ handle_header beyond (record c { header = c.header ++ x })
]

-- writeComplete, with the stream's didConnect and endPoint.
unfoldable pub write_complete : Bool → InetDest → Client → Client
write_complete did_connect end_point c =
    let c' =
      if c.stream && not c.remote_dest.valid && did_connect
      then record c { remote_dest = end_point }
      else c in
    if c'.disconnect_when_completed then disconnect_stream c' else c'

-- disconnect, where the stream's queue is empty or not.
unfoldable pub disconnect_client : Bool → Client → Client
disconnect_client write_queue_empty c =
    if not c.stream
    then c
    else if write_queue_empty
    then disconnect_stream c
    else record c { disconnect_when_completed = true }

-- disconnected, which disconnects the Remote where there is one, with its stream's queue empty or not.
unfoldable pub disconnected : Bool → Client → Option Client
disconnected write_queue_empty c = elim c.remote [
  | none ↦ some c
  | some r ↦ disconnect write_queue_empty r >>= λ r'. some (record c { remote = some r' })
]
