-- ===== src/TcpStream/Quiet.antt =====
-- src/tcpstream.cpp: how queueWrite and handleWrite leave a stream with no limit.
use epoller.Prelude.{
  ℕ, ◌≡◌, ◌⊎◌, refl, inl, inr, Bool, true, false, not, ◌&&◌, ◌||◌, [], ◌∷◌, ◌++◌, Bytes, some,
  arith, Bool-cases, List-cases, ◌>>=◌, >>=-eq-some,
}
use epoller.TcpStream.Defs.{
  Stream, Round, failed, trigger_writes, set_activity_timer, inactivity_timeout, is_empty, emit,
  begin_write, queue_write, write_loop, notify_once, connect_done, handle_write,
}
use epoller.TcpStream.Link.{is_trigger, made}
use epoller.TcpStream.Progress.{write_loop-Settled}
use epoller.TcpStream.Rounds.{count_emit}
use epoller.TcpStream.Egress.{made-emit}

-- No write of the kernel fails.
abbrev pub NeverFails : (ℕ → Bytes → Round) → Type 0
NeverFails kernel = (k : ℕ) (bytes : Bytes) → ¬ ((kernel k bytes).result ≡ failed)

-- Why a stream need not be written to, or will be.
abbrev pub quiet : Stream → Bool
quiet s =
    s.disconnecting
    || s.blocked
    || not s.once
    || not s.connected
    || (is_empty s.write_queue && not s.write_triggered)

-- What queueWrite does: it triggers a write, or may not now.
pub queue_write-triggers :
    (b : ℕ) (bs : Bytes) (s : Stream)
    → let s' = queue_write (b ∷ bs) s in
      (s'.egress_rate ≡ s.egress_rate)
      × (s'.once ≡ s.once)
      × (s'.connected ≡ s.connected)
      × (s'.blocked ≡ s.blocked)
      × ((made is_trigger s s' ≡ 1)
          ⊎ ((made is_trigger s s' ≡ 0)
              × ((s.connected && not s.blocked && not s.write_triggered) ≡ false)))
unfolding queue_write
queue_write-triggers b bs s =
    let t : Stream = record s {
      write_queue = s.write_queue ++ (b ∷ bs) ∷ [];
      write_triggered = true;
    } in
    elim (Bool-cases (s.connected && not s.blocked && not s.write_triggered)) [
      | inl triggers ↦
          rw triggers (refl, refl, refl, refl, inl (made-emit is_trigger trigger_writes t))
      | inr waits ↦ rw waits (refl, refl, refl, refl, inr (omega arith, refl))
    ]

-- How handleWrite leaves a stream with no limit: it need not go on, or it has triggered a write.
pub handle_write-quiet :
    (kernel : ℕ → Bytes → Round) (fuel : ℕ) (s s' : Stream)
    → NeverFails kernel
    → s.egress_rate ≡ 0
    → handle_write kernel fuel s ≡ some s'
    → (s'.egress_rate ≡ 0) × ((quiet s' ≡ true) ⊎ (made is_trigger s s' ≡ 1))
unfolding handle_write notify_once connect_done
handle_write-quiet kernel fuel s s' w free e = elim (Bool-cases s.connected) [
  | inl open_stream ↦
      let body : (write_loop kernel fuel 0 0 s.write_queue (begin_write s) >>= λ x.
      some (notify_once (is_empty s.write_queue) x))
          ≡ some s' =
        ground (arith, e) in
      let (t, looped, end) =
        >>=-eq-some (write_loop kernel fuel 0 0 s.write_queue (begin_write s))
          (λ x. some (notify_once (is_empty s.write_queue) x)) body in
      let (left, rate, conn, leaving, mark) =
        write_loop-Settled kernel w fuel 0 0 s.write_queue (begin_write s) t refl free looped in
      (ground (arith, end, rate, free), inl (ground (arith, end, left, mark)))
  | inr unconnected ↦ elim (List-cases s.write_queue) [
    | inl empty ↦
        (ground (arith, e, unconnected, free), inl (ground (arith, e, unconnected, empty)))
    | inr (bytes, rest, full) ↦
        let s1 = record (begin_write s) { connected = true } in
        let s2 = record (emit (set_activity_timer inactivity_timeout) s1) {
          write_triggered = true;
        } in
        let same : emit trigger_writes s2 ≡ s' = ground (arith, e, unconnected, full) in
        (
          ground (arith, e, unconnected, free),
          inr (
              rw (← same) (
                omega (
                  arith,
                  count_emit is_trigger (set_activity_timer inactivity_timeout) s.effects,
                  count_emit is_trigger trigger_writes s2.effects,
                ))),
        )
  ]
]
