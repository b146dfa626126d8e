-- ===== src/TcpStream/Life.antt =====
-- src/tcpstream.cpp: the two functions create, and the destructor.
use epoller.Prelude.{ℕ, ◌*◌, true, false, [], ◌∷◌, ◌++◌, Option, none, some}
use epoller.TcpStream.Defs.{
  run_write_complete, add_self, set_activity_timer, inactivity_timeout, client_disconnected,
  cancel_activity_timer, cancel_egress_timer, Stream,
}

-- What connect() answers, as convertFromStdError passes it on.
pub data ConnectResult : Type 0 where
  connected_now connecting refused : ConnectResult

abbrev new_stream : ℕ → Stream
new_stream now = record {
  write_queue = [];
  blocked = false;
  once = false;
  write_triggered = false;
  connected = false;
  disconnecting = false;
  egress_rate = 0;
  counters = record { last_egress = now; last_ingress = now; ingress = 0; egress = 0 };
  effects = [];
  taken = [];
  lost = [];
}

-- create, of a descriptor that has been accepted.
unfoldable pub create_accepted : ℕ → Stream
create_accepted now = record (new_stream now) {
  connected = true;
  egress_rate = 4096 * 1024;
  effects = run_write_complete ∷ add_self ∷ [];
}

-- create, with a destination; `none` if the stream is given up.
unfoldable pub create_connected : ConnectResult → ℕ → Option Stream
create_connected connected_now now = some (record (new_stream now) {
  connected = true;
  effects = set_activity_timer inactivity_timeout ∷ add_self ∷ [];
})
create_connected connecting now =
    some
      (record (new_stream now) { effects = set_activity_timer inactivity_timeout ∷ add_self ∷ [] })
create_connected refused now = none

-- ~TcpStream.
unfoldable pub destroy : Stream → Stream
destroy s = record s {
  effects = s.effects ++ client_disconnected ∷ cancel_activity_timer ∷ cancel_egress_timer ∷ [];
}
