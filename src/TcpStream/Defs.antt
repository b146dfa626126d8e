-- ===== src/TcpStream/Defs.antt =====
-- src/tcpstream.cpp: the state of TcpStream and its operations. An operation holds the stream's lock
-- for the whole of its run, so operations of one stream do not interleave.
use epoller.Prelude.{
  ℕ, zero, suc, ◌+◌, ◌*◌, ◌/◌, ◌%◌, Bool, true, false, not, ◌&&◌, ◌||◌, List, [], ◌∷◌, ◌++◌, Bytes,
  ◌==◌, ltb, if◌then◌else◌, Option, none, some, length, drop, take, size_mod, ◌>>=◌,
}
use epoller.Counters.{Counters, notify_ingress, notify_egress}

abbrev pub max_packet_size : ℕ
max_packet_size = 4096

abbrev pub one_sec_in_ns : ℕ
one_sec_in_ns = 1_000_000_000

-- inactivityTimeout
abbrev pub inactivity_timeout : ℕ
inactivity_timeout = 60_000_000_000

-- What an operation asks of the engine or tells the client.
pub data Effect : Type 0 where
  set_activity_timer : ℕ → Effect
  set_egress_timer : ℕ → Effect
  run_write_complete trigger_writes add_self remove_self : Effect
  client_write_complete client_disconnected cancel_activity_timer cancel_egress_timer : Effect
  received : Bytes → Effect

-- The answer of write(), as convertFromStdError passes it on: a count, -1 or -2.
pub data WriteResult : Type 0 where
  sent : ℕ → WriteResult
  would_block failed : WriteResult

-- What the kernel answers to one write, and the readings of the clock that go with it.
pub record Round : Type 0 where
  pub result : WriteResult
  pub stamp : ℕ
  pub elapsed : ℕ

-- `taken` is what the kernel has taken of the stream, in order, and `lost` what a failed write dropped:
-- the code keeps neither.
pub record Stream : Type 0 where
  pub write_queue : List Bytes
  pub blocked : Bool
  pub once : Bool
  pub write_triggered : Bool
  pub connected : Bool
  pub disconnecting : Bool
  pub egress_rate : ℕ
  pub counters : Counters
  pub effects : List Effect
  pub taken : Bytes
  pub lost : Bytes

abbrev pub emit : Effect → Stream → Stream
emit e s = record s { effects = s.effects ++ e ∷ [] }

-- totalWritten * ONE_SEC_IN_NS / elapsedNs, on 64 bits.
abbrev pub current_rate : ℕ → ℕ → ℕ
current_rate total_written elapsed =
    ((total_written * one_sec_in_ns) % size_mod) / (if elapsed == 0 then 1 else elapsed)

-- The stream after a write of `n` bytes of `bytes`, which stood in front of `rest`.
unfoldable pub after_sent : ℕ → Bytes → List Bytes → Round → Stream → Stream
unfolding notify_egress
after_sent n bytes rest round s = emit (set_activity_timer inactivity_timeout) (record s {
  write_queue = if n == length bytes then rest else drop n bytes ∷ rest;
  counters = notify_egress round.stamp n s.counters;
  taken = s.taken ++ take n bytes;
})

-- Over the limit: the next write waits for the egress timer.
unfoldable pub limit_egress : Stream → Stream
limit_egress s =
    emit (set_egress_timer (max_packet_size * one_sec_in_ns / s.egress_rate))
      (record s { write_triggered = true; blocked = true })

-- The loop of handleWrite, on fuel: `none` if it runs out. `kernel k bytes` is the answer to write
-- number `k`.
unfoldable pub write_loop : (ℕ → Bytes → Round) → ℕ → ℕ → ℕ → List Bytes → Stream → Option Stream
write_loop kernel zero k total queue s = none
write_loop kernel (suc fuel) k total [] s = some s
write_loop kernel (suc fuel) k total (bytes ∷ rest) s =
    let round = kernel k bytes in
    elim round.result [
      | sent n ↦
          let s' = after_sent n bytes rest round s in
          elim (not (s.egress_rate == 0)
            && ltb s.egress_rate (current_rate (total + n) round.elapsed)) [
              | true ↦ some (limit_egress s')
              | false ↦ write_loop kernel fuel (k + 1) (total + n) s'.write_queue s'
            ]
      | would_block ↦ some (record s { write_queue = bytes ∷ rest; blocked = true })
      | failed ↦ some (record s { write_queue = rest; lost = s.lost ++ bytes })
    ]

abbrev pub is_empty : List Bytes → Bool
is_empty [] = true
is_empty (b ∷ bs) = false

-- The end of handleWrite on a connected stream.
unfoldable pub notify_once : Bool → Stream → Stream
notify_once was_empty s =
    if not s.once || (not was_empty && is_empty s.write_queue)
    then emit run_write_complete (record s { once = true })
    else s

-- handleWrite where the connection has just been made.
unfoldable pub connect_done : Stream → Stream
connect_done s =
    let s' = emit (set_activity_timer inactivity_timeout) (record s { connected = true }) in
    if is_empty s'.write_queue
    then emit run_write_complete s'
    else emit trigger_writes (record s' { write_triggered = true })

abbrev pub begin_write : Stream → Stream
begin_write s = record s { write_triggered = false; blocked = false }

unfoldable pub handle_write : (ℕ → Bytes → Round) → ℕ → Stream → Option Stream
handle_write kernel fuel s =
    if s.connected
    then (do
      s' ← write_loop kernel fuel 0 0 s.write_queue (begin_write s)
      some (notify_once (is_empty s.write_queue) s'))
    else some (connect_done (begin_write s))

unfoldable pub waiting_out_event : Stream → Bool
waiting_out_event s =
    (s.blocked || not s.once || not s.connected)
    && not s.disconnecting
    && (not s.connected || s.egress_rate == 0)

-- asyncEgress; its assertion traps with `none`.
unfoldable pub async_egress : Stream → Option Stream
async_egress s = if s.write_triggered then some (emit trigger_writes s) else none

unfoldable pub disconnect : Stream → Stream
disconnect s = if s.disconnecting then s else emit remove_self (record s { disconnecting = true })

-- handleError, and asyncDisconnect, which the activity timer runs.
abbrev pub handle_error : Stream → Stream
handle_error = disconnect

abbrev pub async_disconnect : Stream → Stream
async_disconnect = disconnect

-- asyncWriteComplete.
abbrev pub async_write_complete : Stream → Stream
async_write_complete = emit client_write_complete

unfoldable pub queue_write : Bytes → Stream → Stream
queue_write [] s = s
queue_write (b ∷ bs) s =
    let s' = record s { write_queue = s.write_queue ++ (b ∷ bs) ∷ [] } in
    if s.connected && not s.blocked && not s.write_triggered
    then emit trigger_writes (record s' { write_triggered = true })
    else s'

unfoldable pub write_queue_empty : Stream → Bool
write_queue_empty s = is_empty s.write_queue

-- handleRead: the reads that give bytes, each with its time, up to the first that gives none.
unfoldable pub handle_read : List (Bytes × ℕ) → Stream → Stream
unfolding notify_ingress
handle_read [] s = s
handle_read (([], now) ∷ reads) s = s
handle_read ((b ∷ bs, now) ∷ reads) s = handle_read reads (
    emit (received (b ∷ bs)) (
      emit (set_activity_timer inactivity_timeout)
        (record s { counters = notify_ingress now (length (b ∷ bs)) s.counters })))
