-- ===== src/TcpStream/LinkTests.antt =====
-- Runs of an accepted stream of src/tcpstream.cpp in the engine, and the theorems at them.
use epoller.Prelude.{ℕ, ◌≡◌, ◌⊎◌, refl, true, false, [], ◌∷◌, ◌++◌, Bytes, none, some, arith}
use epoller.Counters.{notify_egress}
use epoller.Engine.Defs.{find, do_trigger_writes}
use epoller.Engine.Reached.{initial}
use epoller.TcpStream.Defs.{
  Stream, Round, sent, trigger_writes, run_write_complete, add_self, set_activity_timer,
  set_egress_timer, inactivity_timeout, handle_write, write_loop, after_sent, limit_egress,
  notify_once, queue_write, waiting_out_event,
}
use epoller.TcpStream.Life.{create_accepted}
use epoller.TcpStream.Link.{Link, queues, adds, fires, runs, on_its_way, Reach, created, next}
use epoller.TcpStream.Resumed.{Takes, limited_stream_goes_on}
use epoller.TcpStream.Unadded.{first_write, early_write_stalls}

-- A kernel that takes one byte, in a nanosecond.
abbrev one_byte : ℕ → Bytes → Round
one_byte k bytes = record { result = sent 1; stamp = 9; elapsed = 1 }

one_byte-Takes : Takes one_byte
one_byte-Takes k bytes = (1, refl)

-- Two bytes have been queued, one has been taken, and the stream is over its limit.
abbrev one_taken : Stream
one_taken = record (create_accepted 7) {
  write_queue = (2 ∷ []) ∷ [];
  blocked = true;
  once = true;
  write_triggered = true;
  counters =
      notify_egress 9 1 (record { last_egress = 7; last_ingress = 7; ingress = 0; egress = 0 });
  effects =
      run_write_complete
      ∷ add_self
      ∷ trigger_writes
      ∷ set_activity_timer inactivity_timeout
      ∷ set_egress_timer 976562
      ∷ run_write_complete
      ∷ [];
  taken = 1 ∷ [];
}

one_taken_run :
    handle_write one_byte 3 (queue_write (1 ∷ 2 ∷ []) (create_accepted 7)) ≡ some one_taken
unfolding handle_write write_loop after_sent limit_egress notify_once queue_write create_accepted
one_taken_run = refl

abbrev fired : Link
fired = record {
  stream = one_taken;
  added = true;
  timer = false;
  fired = 1;
  writes = 0;
  early = false;
}

fired-Reach : Reach Takes (create_accepted 7) fired
unfolding queue_write create_accepted
fired-Reach =
    next
      (next (next (next created (adds refl)) (queues (1 ∷ 2 ∷ [])))
        (runs one_byte 3 (omega arith) one_byte-Takes one_taken_run))
      (fires refl)

limited_stream_goes_on_example : (one_taken.write_queue ≡ []) ⊎ (on_its_way fired ≡ 1)
unfolding create_accepted
limited_stream_goes_on_example = limited_stream_goes_on 7 fired fired-Reach refl refl

initial-unknown : find (initial.ev_id 40) initial.event_hash ≡ none
unfolding find
initial-unknown = refl

early_write_stalls_example :
    let s = first_write 7 (1 ∷ []) in
    let s' = queue_write (2 ∷ []) s in
    (s.effects ≡ (create_accepted 7).effects ++ trigger_writes ∷ [])
    × (do_trigger_writes 40 initial ≡ initial)
    × (s'.effects ≡ s.effects)
    × (s'.write_queue ≡ (1 ∷ []) ∷ (2 ∷ []) ∷ [])
    × (waiting_out_event s' ≡ false)
early_write_stalls_example = early_write_stalls 7 40 1 2 [] [] initial initial-unknown
