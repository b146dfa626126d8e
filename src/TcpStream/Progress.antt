-- ===== src/TcpStream/Progress.antt =====
-- src/tcpstream.cpp: whether a stream with queued bytes will be run again, by Engine::triggerWrites, by
-- EPOLLOUT or by its egress timer.
use epoller.Prelude.{
  ℕ, zero, suc, ◌+◌, ◌≡◌, refl, sym, ◌∙◌, Bool, true, false, ◌||◌, List, [], ◌∷◌, Bytes, some,
  arith, List-cases,
}
use epoller.TcpStream.Round.{write_round, blocks, fails, limits, goes_on}
use epoller.TcpStream.Defs.{
  Stream, Round, would_block, failed, after_sent, write_loop, notify_once, begin_write,
  handle_write, waiting_out_event, queue_write, is_empty,
}

-- Nothing is queued, or the stream is marked as triggered, or it waits for EPOLLOUT, or it is being removed.
unfoldable pub is_live : Stream → Bool
unfolding waiting_out_event
is_live s = is_empty s.write_queue || s.write_triggered || waiting_out_event s || s.disconnecting

-- How the loop may leave a stream with no limit.
abbrev pub Settled : Stream → Stream → Type 0
Settled s s' =
    (is_empty s'.write_queue || s'.blocked ≡ true)
    × (s'.egress_rate ≡ s.egress_rate)
    × (s'.connected ≡ s.connected)
    × (s'.disconnecting ≡ s.disconnecting)
    × (s'.write_triggered ≡ s.write_triggered)

after_sent-keeps :
    (n : ℕ) (bytes : Bytes) (rest : List Bytes) (round : Round) (s : Stream)
    → ((after_sent n bytes rest round s).egress_rate ≡ s.egress_rate)
      × ((after_sent n bytes rest round s).connected ≡ s.connected)
      × ((after_sent n bytes rest round s).disconnecting ≡ s.disconnecting)
      × ((after_sent n bytes rest round s).write_triggered ≡ s.write_triggered)
unfolding after_sent
after_sent-keeps n bytes rest round s = (refl, refl, refl, refl)

pub write_loop-Settled :
    (kernel : ℕ → Bytes → Round)
    → ((k : ℕ) (bytes : Bytes) → ¬ ((kernel k bytes).result ≡ failed))
    → (fuel k total : ℕ) (queue : List Bytes) (s s' : Stream) → s.write_queue ≡ queue
    → s.egress_rate ≡ 0
    → write_loop kernel fuel k total queue s ≡ some s'
    → Settled s s'
unfolding write_loop
write_loop-Settled kernel w zero k total queue s s' q free e = cc
write_loop-Settled kernel w (suc fuel) k total [] s s' q free e =
    let end : s ≡ s' = ground (arith) in
    (ground (arith), ground (arith), ground (arith), ground (arith), ground (arith))
write_loop-Settled kernel w (suc fuel) k total (bytes ∷ rest) s s' q free e =
    elim (write_round kernel fuel k total bytes rest s) [
      | blocks r o ↦ (
        ground (arith, o),
        ground (arith, o),
        ground (arith, o),
        ground (arith, o),
        ground (arith, o),
      )
      | fails r o ↦ absurd (w k bytes r)
      | limits n r over o ↦ absurd (ground (arith, free))
      | goes_on n r under o ↦
          let s'' = after_sent n bytes rest (kernel k bytes) s in
          let kept = after_sent-keeps n bytes rest (kernel k bytes) s in
          let (done, rate, conn, disc, mark) =
            write_loop-Settled kernel w fuel (k + 1) (total + n) s''.write_queue s'' s' refl
              (kept.0 ∙ free) (sym o ∙ e) in
          (done, rate ∙ kept.0, conn ∙ kept.1, disc ∙ kept.2, mark ∙ kept.3)
    ]

-- A connected stream with a limit whose peer takes nothing now is stuck: with bytes queued, handleWrite
-- leaves it blocked, with nothing on its way, not waiting for EPOLLOUT and, where the client has been
-- told once that it may write, with no timer set; and a further queueWrite changes its queue only.
pub limited_stream_stalls :
    (kernel : ℕ → Bytes → Round) (fuel : ℕ) (s : Stream) (bytes more : Bytes) (rest : List Bytes)
    → s.write_queue ≡ bytes ∷ rest
    → s.connected ≡ true
    → s.once ≡ true
    → s.disconnecting ≡ false
    → ¬ (s.egress_rate ≡ 0)
    → (kernel 0 bytes).result ≡ would_block
    → (s' : Stream) × (handle_write kernel (suc fuel) s ≡ some s')
      × (s'.write_queue ≡ bytes ∷ rest)
      × (is_live s' ≡ false)
      × (is_live (queue_write more s') ≡ false)
      × (s'.effects ≡ s.effects)
      × ((queue_write more s').effects ≡ s.effects)
unfolding is_live handle_write notify_once write_loop queue_write waiting_out_event
limited_stream_stalls kernel fuel s bytes more rest q open_stream told keep limited refuses =
    let s' = record (begin_write s) { write_queue = bytes ∷ rest; blocked = true } in
    (
      s',
      ground (arith),
      refl,
      ground (arith),
      ground (arith, List-cases more),
      refl,
      ground (arith, List-cases more),
    )
