-- ===== src/TcpStream/Handled.antt =====
-- src/tcpstream.cpp: the calls that handleWrite makes of the engine.
use epoller.Prelude.{
  ℕ, ◌≡◌, refl, ◌∙◌, inl, inr, Bool, true, Bytes, some, arith, count_if, ◌>>=◌, >>=-eq-some,
}
use epoller.TcpStream.Defs.{
  run_write_complete, Stream, Round, write_loop, notify_once, begin_write, handle_write, is_empty,
}
use epoller.TcpStream.Link.{is_trigger, is_egress}
use epoller.TcpStream.Rounds.{Leaves, count_emit, write_loop-Leaves}

-- notifyWriteComplete is another call.
notify_once-calls :
    (was_empty : Bool) (s : Stream)
    → let s' = notify_once was_empty s in
      (s'.connected ≡ s.connected)
      × (s'.egress_rate ≡ s.egress_rate)
      × (count_if is_trigger s'.effects ≡ count_if is_trigger s.effects)
      × (count_if is_egress s'.effects ≡ count_if is_egress s.effects)
      × (s'.write_triggered ≡ s.write_triggered)
      × (s'.write_queue ≡ s.write_queue)
      × (s'.blocked ≡ s.blocked)
unfolding notify_once
notify_once-calls was_empty s = (
  ground arith,
  ground arith,
  ground (arith, count_emit is_trigger run_write_complete s.effects),
  ground (arith, count_emit is_egress run_write_complete s.effects),
  ground arith,
  ground arith,
  ground arith,
)

notify_once-Leaves :
    (kernel : ℕ → Bytes → Round) (was_empty : Bool) (s s' : Stream)
    → Leaves kernel s s'
    → Leaves kernel s (notify_once was_empty s')
notify_once-Leaves kernel was_empty s s' (open_stream, rate, trigger, inl (egress, mark, left)) =
    let (open', rate', trigger', egress', mark', queue, block') = notify_once-calls was_empty s' in
    (
      open' ∙ open_stream,
      rate' ∙ rate,
      trigger' ∙ trigger,
      inl (
        egress' ∙ egress,
        mark' ∙ mark,
        elim left [
          | inl (empty, block) ↦ inl (queue ∙ empty, block' ∙ block)
          | inr refused ↦ inr refused
        ],
      ),
    )
notify_once-Leaves kernel was_empty s s' (open_stream, rate, trigger, inr (egress, mark)) =
    let (open', rate', trigger', egress', mark', queue, block') = notify_once-calls was_empty s' in
    (open' ∙ open_stream, rate' ∙ rate, trigger' ∙ trigger, inr (egress' ∙ egress, mark' ∙ mark))

-- handleWrite of a connected stream makes no other call that brings it back than to set its egress timer.
pub handle_write-Leaves :
    (kernel : ℕ → Bytes → Round) (fuel : ℕ) (s s' : Stream)
    → s.connected ≡ true
    → handle_write kernel fuel s ≡ some s'
    → Leaves kernel (begin_write s) s'
unfolding handle_write
handle_write-Leaves kernel fuel s s' open_stream e =
    let body : (write_loop kernel fuel 0 0 s.write_queue (begin_write s) >>= λ x.
    some (notify_once (is_empty s.write_queue) x))
        ≡ some s' =
      ground (arith, open_stream, e) in
    let (t, looped, end) =
      >>=-eq-some (write_loop kernel fuel 0 0 s.write_queue (begin_write s))
        (λ x. some (notify_once (is_empty s.write_queue) x)) body in
    let same : notify_once (is_empty s.write_queue) t ≡ s' = ground (arith, end) in
    rw (← same) (
      notify_once-Leaves kernel (is_empty s.write_queue) (begin_write s) t
        (write_loop-Leaves kernel fuel 0 0 s.write_queue (begin_write s) t refl looped))
