-- ===== src/TcpStream/Output.antt =====
-- src/tcpstream.cpp: what the calls of a stream do to the bytes that it has been given to send.
use epoller.Prelude.{
  flat, flat-append, ℕ, zero, suc, ◌+◌, ◌≡◌, refl, sym, ap, ◌∙◌, inl, inr, List, [], ◌∷◌, ◌++◌,
  Bytes, some, arith, append_assoc, append-nil, length, length-append, Bool-cases, ◌>>=◌,
  >>=-eq-some,
}
use epoller.TcpStream.Round.{write_round, blocks, fails, limits, goes_on}
use epoller.TcpStream.Defs.{
  Stream, Round, failed, after_sent, limit_egress, write_loop, notify_once, connect_done,
  begin_write, handle_write, queue_write, is_empty,
}
use epoller.TcpStream.Queue.{output, handle_write_in_order, lost-after_sent, lost_unchanged}

module _ (kernel : ℕ → Bytes → Round)
    (sound : (k : ℕ) (bytes : Bytes) → ¬ ((kernel k bytes).result ≡ failed)) where
  write_loop-lost :
      (fuel k total : ℕ) (queue : List Bytes) (s s' : Stream)
      → write_loop kernel fuel k total queue s ≡ some s'
      → s'.lost ≡ s.lost
  unfolding write_loop
  write_loop-lost zero k total queue s s' e = cc
  write_loop-lost (suc fuel) k total [] s s' e =
      let same : s ≡ s' = ground (arith, e) in ap (λ (x : Stream). x.lost) (sym same)
  write_loop-lost (suc fuel) k total (bytes ∷ rest) s s' e =
      elim (write_round kernel fuel k total bytes rest s) [
        | blocks r o ↦ ground (arith, o, e)
        | fails r o ↦ absurd (sound k bytes r)
        | limits n r over o ↦
            let same : limit_egress (after_sent n bytes rest (kernel k bytes) s) ≡ s' =
              ground (arith, o, e) in
            ap (λ (x : Stream). x.lost) (sym same) ∙ lost_unchanged n bytes rest (kernel k bytes) s
        | goes_on n r under o ↦
            let t = after_sent n bytes rest (kernel k bytes) s in
            write_loop-lost fuel (k + 1) (total + n) t.write_queue t s' (sym o ∙ e)
            ∙ lost-after_sent n bytes rest (kernel k bytes) s
      ]

  handle_write-lost :
      (fuel : ℕ) (s s' : Stream) → handle_write kernel fuel s ≡ some s' → s'.lost ≡ s.lost
  unfolding handle_write notify_once connect_done
  handle_write-lost fuel s s' e = elim (Bool-cases s.connected) [
    | inl open_stream ↦
        let body : (write_loop kernel fuel 0 0 s.write_queue (begin_write s) >>= λ x.
        some (notify_once (is_empty s.write_queue) x))
            ≡ some s' =
          ground (arith, open_stream, e) in
        let (t, looped, end) =
          >>=-eq-some (write_loop kernel fuel 0 0 s.write_queue (begin_write s))
            (λ x. some (notify_once (is_empty s.write_queue) x)) body in
        ground (arith, end, write_loop-lost fuel 0 0 s.write_queue (begin_write s) t looped)
    | inr connecting ↦ ground (arith, connecting, e)
  ]

append_self : (xs ys : Bytes) → xs ++ ys ≡ xs → ys ≡ []
append_self xs [] e = refl
append_self xs (y ∷ ys) e = absurd (omega (arith, length-append xs (y ∷ ys), ap length e))

pub handle_write-output :
    (kernel : ℕ → Bytes → Round) (fuel : ℕ) (s s' : Stream)
    → ((k : ℕ) (bytes : Bytes) → ¬ ((kernel k bytes).result ≡ failed))
    → handle_write kernel fuel s ≡ some s'
    → output s' ≡ output s
handle_write-output kernel fuel s s' sound e =
    let (l, lost, kept) = handle_write_in_order kernel fuel s s' e in
    let none_lost : l ≡ [] =
      append_self s.lost l (sym lost ∙ handle_write-lost kernel sound fuel s s' e) in
    ap (λ y. s'.taken ++ (y ++ flat s'.write_queue)) (sym none_lost) ∙ kept

pub queue_write-output : (x : Bytes) (s : Stream) → output (queue_write x s) ≡ output s ++ x
unfolding queue_write
queue_write-output [] s = sym (append-nil (output s))
queue_write-output (b ∷ bs) s =
    ground (
      arith,
      flat-append s.write_queue (b ∷ bs),
      append_assoc s.taken (flat s.write_queue) (b ∷ bs),
    )
