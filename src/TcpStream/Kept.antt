-- ===== src/TcpStream/Kept.antt =====
-- src/tcpstream.cpp: what the operations of a stream leave as it is.
use epoller.Prelude.{
  ℕ, zero, suc, ◌+◌, ◌≡◌, refl, sym, ap, ◌∙◌, inl, inr, List, [], ◌∷◌, Bytes, some, arith,
  Bool-cases, List-cases, ◌>>=◌, >>=-eq-some,
}
use epoller.TcpStream.Round.{write_round, blocks, fails, limits, goes_on}
use epoller.TcpStream.Defs.{
  Stream, Round, after_sent, limit_egress, write_loop, notify_once, connect_done, begin_write,
  handle_write, queue_write, is_empty,
}

after_sent-disconnecting :
    (n : ℕ) (bytes : Bytes) (rest : List Bytes) (round : Round) (s : Stream)
    → ((after_sent n bytes rest round s).disconnecting ≡ s.disconnecting)
      × ((limit_egress (after_sent n bytes rest round s)).disconnecting ≡ s.disconnecting)
unfolding after_sent limit_egress
after_sent-disconnecting n bytes rest round s = (refl, refl)

write_loop-disconnecting :
    (kernel : ℕ → Bytes → Round) (fuel k total : ℕ) (queue : List Bytes) (s s' : Stream)
    → write_loop kernel fuel k total queue s ≡ some s'
    → s'.disconnecting ≡ s.disconnecting
unfolding write_loop
write_loop-disconnecting kernel zero k total queue s s' e = cc
write_loop-disconnecting kernel (suc fuel) k total [] s s' e = ground (arith, e)
write_loop-disconnecting kernel (suc fuel) k total (bytes ∷ rest) s s' e =
    elim (write_round kernel fuel k total bytes rest s) [
      | blocks r o ↦ ground (arith, o, e)
      | fails r o ↦ ground (arith, o, e)
      | limits n r over o ↦
          let t = limit_egress (after_sent n bytes rest (kernel k bytes) s) in
          let same : t ≡ s' = ground (arith, e, o) in
          ap (λ (x : Stream). x.disconnecting) (sym same)
          ∙ (after_sent-disconnecting n bytes rest (kernel k bytes) s).1
      | goes_on n r under o ↦
          let t = after_sent n bytes rest (kernel k bytes) s in
          write_loop-disconnecting kernel fuel (k + 1) (total + n) t.write_queue t s' (sym o ∙ e)
          ∙ (after_sent-disconnecting n bytes rest (kernel k bytes) s).0
    ]

pub handle_write-disconnecting :
    (kernel : ℕ → Bytes → Round) (fuel : ℕ) (s s' : Stream)
    → handle_write kernel fuel s ≡ some s'
    → s'.disconnecting ≡ s.disconnecting
unfolding handle_write notify_once connect_done
handle_write-disconnecting kernel fuel s s' e = elim (Bool-cases s.connected) [
  | inl open_stream ↦
      let body : (write_loop kernel fuel 0 0 s.write_queue (begin_write s) >>= λ x.
      some (notify_once (is_empty s.write_queue) x))
          ≡ some s' =
        ground (arith, open_stream, e) in
      let (t, looped, end) =
        >>=-eq-some (write_loop kernel fuel 0 0 s.write_queue (begin_write s))
          (λ x. some (notify_once (is_empty s.write_queue) x)) body in
      ground (
        arith,
        end,
        write_loop-disconnecting kernel fuel 0 0 s.write_queue (begin_write s) t looped,
      )
  | inr connecting ↦ ground (arith, connecting, e, List-cases s.write_queue)
]

pub queue_write-disconnecting :
    (bytes : Bytes) (s : Stream) → (queue_write bytes s).disconnecting ≡ s.disconnecting
unfolding queue_write
queue_write-disconnecting [] s = refl
queue_write-disconnecting (b ∷ bs) s = ground arith
