-- ===== src/HttpProxy/Pair.antt =====
-- src/main.cpp: Remote in front of the server and HttpProxy in front of the client, as they call each other.
use epoller.Prelude.{ℕ, ◌≡◌, ◌≢◌, ◌&&◌, ◌||◌, Bool, true, false, [], ◌++◌, Bytes, none, some}
use epoller.IpAddr.{InetDest}
use epoller.HttpProxy.{Remote}
use epoller.HttpProxy as Remote
use epoller.HttpProxy.Header.{newline}
use epoller.HttpProxy.Client.{
  Client, queue_write, received, write_complete, disconnect_client, disconnected,
}

-- Remote::received, of the Remote that the proxy refers to.
unfoldable pub server_received : Bytes → Client → Client
server_received x c = elim c.remote [ none ↦ c | some r ↦ queue_write x c ]

-- Remote::disconnected.
unfoldable pub server_disconnected : Bool → Client → Client
server_disconnected write_queue_empty c = elim c.remote [
  | none ↦ c
  | some r ↦ disconnect_client write_queue_empty c
]

-- The Remote, where there is one, after a call of its own.
abbrev pub with_remote : (Remote → Remote) → Client → Client
with_remote f c = elim c.remote [ none ↦ c | some r ↦ record c { remote = some (f r) } ]

abbrev pub new_client : InetDest → Client
new_client dest = record {
  stream = true;
  header = [];
  remote = none;
  remote_dest = dest;
  disconnect_when_completed = false;
  queued = [];
  disconnects = 0;
  created = [];
}

-- The Remote's stream comes to exist, or ceases to.
abbrev pub stream_is : Bool → Remote → Remote
stream_is exists r = record r { stream = exists }

-- The states of a proxy whose stream to the client exists, and whose Remote, once it has been made, exists:
-- what the client has sent so far, and the server, and whether a write has been complete on the
-- Remote's stream since that came to exist.
pub data Serving : Bytes → Bytes → Bool → Client → Type 0 where
  starts : (dest : InetDest) → Serving [] [] false (new_client dest)
  client_sends :
      {sent answered : Bytes} {done : Bool} {c c' : Client} (beyond : ℕ) (x : Bytes)
      → Serving sent answered done c
      → beyond ≢ newline
      → received beyond x c ≡ some c'
      → Serving (sent ++ x) answered done c'
  server_sends :
      {sent answered : Bytes} {done : Bool} {c : Client} (r : Remote) (x : Bytes)
      → Serving sent answered done c
      → c.remote ≡ some r
      → Serving sent (answered ++ x) done (server_received x c)
  server_opens :
      {sent answered : Bytes} {done : Bool} {c : Client} (exists : Bool)
      → Serving sent answered done c
      → Serving sent answered (done && exists) (with_remote (stream_is exists) c)
  server_completes :
      {sent answered : Bytes} {done : Bool} {c : Client} (r : Remote)
      → Serving sent answered done c
      → c.remote ≡ some r
      → Serving sent answered (done || r.stream) (with_remote Remote.write_complete c)
  client_completes :
      {sent answered : Bytes} {done : Bool} {c : Client} (did_connect : Bool) (end_point : InetDest)
      → Serving sent answered done c
      → Serving sent answered done (write_complete did_connect end_point c)
  server_ends :
      {sent answered : Bytes} {done : Bool} {c : Client} (write_queue_empty : Bool)
      → Serving sent answered done c
      → Serving sent answered done (server_disconnected write_queue_empty c)
  client_ends :
      {sent answered : Bytes} {done : Bool} {c c' : Client} (write_queue_empty : Bool)
      → Serving sent answered done c
      → disconnected write_queue_empty c ≡ some c'
      → Serving sent answered done c'
