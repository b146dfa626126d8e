-- ===== src/TcpStream/Tests.antt =====
-- Runs of src/tcpstream.cpp, and the theorems at them.
use epoller.Prelude.{
  flat, ℕ, ◌+◌, ◌≡◌, refl, true, false, [], ◌∷◌, ◌++◌, Bytes, some, arith, length, ltb,
  if◌then◌else◌, ◌==◌,
}
use epoller.Counters.{notify_egress}
use epoller.TcpStream.Defs.{
  add_self, trigger_writes, run_write_complete, sent, would_block, failed, Round, Stream,
  handle_write, queue_write, write_loop, after_sent, notify_once, set_activity_timer,
  inactivity_timeout,
}
use epoller.TcpStream.Queue.{output, handle_write_in_order}
use epoller.TcpStream.Total.{IsKernel, handle_write_total}
use epoller.TcpStream.Link.{Link}
use epoller.TcpStream.Progress.{is_live, limited_stream_stalls}

-- A stream that is connected, with two pieces in its queue, and no limit.
abbrev two_pieces : Stream
two_pieces = record {
  write_queue = (1 ∷ 2 ∷ 3 ∷ []) ∷ (4 ∷ 5 ∷ []) ∷ [];
  blocked = false;
  once = true;
  write_triggered = true;
  connected = true;
  disconnecting = false;
  egress_rate = 0;
  counters = record { last_egress = 0; last_ingress = 0; ingress = 0; egress = 0 };
  effects = [];
  taken = [];
  lost = [];
}

abbrev limited : Stream
limited = record two_pieces { egress_rate = 100 }

-- A kernel that takes two bytes at most.
abbrev two_bytes : ℕ → Bytes → Round
two_bytes k bytes = record {
  result = sent (if ltb (length bytes) 2 then length bytes else 2);
  stamp = k;
  elapsed = 1 + k;
}

-- One that takes one byte and then blocks, one that fails at once, and one that blocks at once.
abbrev one_byte : ℕ → Bytes → Round
one_byte k bytes = record {
  result = if k == 0 then sent 1 else would_block;
  stamp = k;
  elapsed = 1;
}

abbrev fails_first : ℕ → Bytes → Round
fails_first k bytes = record { result = if k == 0 then sent 2 else failed; stamp = k; elapsed = 1 }

abbrev blocked_kernel : ℕ → Bytes → Round
blocked_kernel k bytes = record { result = would_block; stamp = k; elapsed = 1 }

-- Two of three bytes are sent, and the piece that is left is lost; the next one stays queued.
abbrev after_failure : Stream
after_failure = record two_pieces {
  write_queue = (4 ∷ 5 ∷ []) ∷ [];
  write_triggered = false;
  counters = record { last_egress = 0; last_ingress = 0; ingress = 0; egress = 2 };
  effects = set_activity_timer inactivity_timeout ∷ [];
  taken = 1 ∷ 2 ∷ [];
  lost = 3 ∷ [];
}

handle_write-failure : handle_write fails_first 9 two_pieces ≡ some after_failure
unfolding handle_write write_loop after_sent notify_once notify_egress
handle_write-failure = refl

handle_write_in_order_example :
    (l : Bytes) × (after_failure.lost ≡ [] ++ l)
    × (after_failure.taken ++ (l ++ flat after_failure.write_queue) ≡ output two_pieces)
handle_write_in_order_example =
    handle_write_in_order fails_first 9 two_pieces after_failure handle_write-failure

two_bytes-IsKernel : IsKernel two_bytes
two_bytes-IsKernel = record {
  progress = λ k n bytes h e. ground (arith, e);
  fits = λ k n bytes e. ground (arith, e);
}

handle_write_total_example : (s' : Stream) × (handle_write two_bytes 6 two_pieces ≡ some s')
handle_write_total_example =
    handle_write_total two_bytes 6 two_pieces two_bytes-IsKernel (omega arith, (omega arith, tt))
      (omega arith)

abbrev after_block : Stream
after_block = record two_pieces {
  write_queue = (2 ∷ 3 ∷ []) ∷ (4 ∷ 5 ∷ []) ∷ [];
  blocked = true;
  write_triggered = false;
  counters = record { last_egress = 0; last_ingress = 0; ingress = 0; egress = 1 };
  effects = set_activity_timer inactivity_timeout ∷ [];
  taken = 1 ∷ [];
}

handle_write-block : handle_write one_byte 9 two_pieces ≡ some after_block
unfolding handle_write write_loop after_sent notify_once notify_egress
handle_write-block = refl

limited_stream_stalls_example :
    (s' : Stream) × (handle_write blocked_kernel 1 limited ≡ some s')
    × (s'.write_queue ≡ limited.write_queue)
    × (is_live s' ≡ false)
    × (is_live (queue_write (6 ∷ []) s') ≡ false)
    × (s'.effects ≡ [])
    × ((queue_write (6 ∷ []) s').effects ≡ [])
limited_stream_stalls_example =
    limited_stream_stalls blocked_kernel 0 limited (1 ∷ 2 ∷ 3 ∷ []) (6 ∷ []) ((4 ∷ 5 ∷ []) ∷ [])
      refl refl refl refl (λ e. omega (arith, e)) refl

-- A stream that is connecting.
abbrev unconnected : Stream
unconnected = record {
  write_queue = [];
  blocked = false;
  once = false;
  write_triggered = false;
  connected = false;
  disconnecting = false;
  egress_rate = 0;
  counters = record { last_egress = 7; last_ingress = 7; ingress = 0; egress = 0 };
  effects = set_activity_timer inactivity_timeout ∷ add_self ∷ [];
  taken = [];
  lost = [];
}

-- Three bytes have been queued, and the connection has been made.
abbrev just_connected : Stream
just_connected = record unconnected {
  write_queue = (1 ∷ 2 ∷ 3 ∷ []) ∷ [];
  write_triggered = true;
  connected = true;
  effects =
      set_activity_timer inactivity_timeout
      ∷ add_self
      ∷ set_activity_timer inactivity_timeout
      ∷ trigger_writes
      ∷ [];
}

-- One byte has been sent, and two more bytes are queued.
abbrev one_sent : Stream
one_sent = record just_connected {
  write_queue = (2 ∷ 3 ∷ []) ∷ [];
  blocked = true;
  once = true;
  write_triggered = false;
  counters = record { last_egress = 0; last_ingress = 7; ingress = 0; egress = 1 };
  effects =
      set_activity_timer inactivity_timeout
      ∷ add_self
      ∷ set_activity_timer inactivity_timeout
      ∷ trigger_writes
      ∷ set_activity_timer inactivity_timeout
      ∷ run_write_complete
      ∷ [];
  taken = 1 ∷ [];
}

abbrev still_live : Link
still_live = record {
  stream = record one_sent { write_queue = (2 ∷ 3 ∷ []) ∷ (4 ∷ 5 ∷ []) ∷ [] };
  added = true;
  timer = false;
  fired = 0;
  writes = 0;
  early = false;
}
