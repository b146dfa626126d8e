-- ===== src/Echo/Tests.antt =====
-- A run of TcpEcho of src/main.cpp, and the theorem at it.
use epoller.Prelude.{ℕ, ◌≡◌, ◌++◌, refl, [], ◌∷◌, List, Bytes, some, true, arith, flat}
use epoller.Counters.{notify_egress, notify_ingress}
use epoller.TcpStream.Defs.{
  Stream, Round, sent, trigger_writes, run_write_complete, add_self, remove_self,
  set_activity_timer, set_egress_timer, inactivity_timeout, handle_read, handle_write, write_loop,
  after_sent, limit_egress, notify_once, queue_write, disconnect,
}
use epoller.TcpStream.Defs as TcpStream
use epoller.TcpStream.Life.{create_accepted}
use epoller.Echo.{
  Act, reads, writes, completes, disconnects, act, act_all, received, write_complete,
}
use epoller.Echo.Echoes.{NeverFails, read_by, act_all_echoes}

-- A kernel that takes one byte, in a second.
abbrev slow : ℕ → Bytes → Round
slow k bytes = record { result = sent 1; stamp = 9; elapsed = 1_000_000_000 }

abbrev acts : List Act
acts = reads (1 ∷ 2 ∷ []) 5 ∷ writes slow 4 ∷ completes ∷ reads (3 ∷ []) 6 ∷ disconnects ∷ []

abbrev echoed : Stream
echoed = record (create_accepted 4) {
  write_queue = (3 ∷ []) ∷ [];
  once = true;
  write_triggered = true;
  disconnecting = true;
  counters = notify_ingress 6 1 (
      notify_egress 9 1 (
        notify_egress 9 1 (
          notify_ingress 5 2
            (record { last_egress = 4; last_ingress = 4; ingress = 0; egress = 0 }))));
  effects =
      run_write_complete
      ∷ add_self
      ∷ set_activity_timer inactivity_timeout
      ∷ TcpStream.received (1 ∷ 2 ∷ [])
      ∷ trigger_writes
      ∷ set_activity_timer inactivity_timeout
      ∷ set_activity_timer inactivity_timeout
      ∷ run_write_complete
      ∷ set_activity_timer inactivity_timeout
      ∷ TcpStream.received (3 ∷ [])
      ∷ trigger_writes
      ∷ remove_self
      ∷ [];
  taken = 1 ∷ 2 ∷ [];
}

echoed_run : act_all acts (create_accepted 4) ≡ some echoed
unfolding act_all act received write_complete handle_read handle_write write_loop after_sent
    limit_egress notify_once queue_write disconnect create_accepted notify_egress notify_ingress
echoed_run = refl

slow-NeverFails : NeverFails (writes slow 4)
slow-NeverFails k bytes e = ground arith

act_all_echoes_example : (1 ∷ 2 ∷ []) ++ flat ((3 ∷ []) ∷ []) ≡ read_by acts
unfolding create_accepted
act_all_echoes_example =
    act_all_echoes acts (create_accepted 4) echoed (tt, (slow-NeverFails, (tt, (tt, (tt, tt)))))
      echoed_run
