-- ===== src/TcpStream/Queue.antt =====
-- src/tcpstream.cpp: the queue of bytes, and what handleWrite takes from it.
use epoller.Prelude.{
  flat, ℕ, zero, suc, ◌+◌, ◌≤◌, ◌≡◌, refl, ap, sym, ◌∙◌, inl, inr, List, [], ◌∷◌, ◌++◌, append-nil,
  append_assoc, Bytes, ◌==◌, some, length, drop, take, take-append-drop, arith, Bool-cases, ◌>>=◌,
  >>=-eq-some,
}
use epoller.TcpStream.Round.{write_round, blocks, fails, limits, goes_on}
use epoller.TcpStream.Defs.{
  Stream, Round, after_sent, limit_egress, write_loop, notify_once, connect_done, begin_write,
  handle_write, is_empty,
}

-- All that a stream has been given to send and has not lost: what the kernel took, then the queue.
abbrev pub output : Stream → Bytes
output s = s.taken ++ flat s.write_queue

take_all : (n : ℕ) (b : Bytes) → length b ≤ n → take n b ≡ b
take_all zero [] h = refl
take_all zero (x ∷ b) h = absurd (omega arith)
take_all (suc n) [] h = refl
take_all (suc n) (x ∷ b) h = ap (◌∷◌ x) (take_all n b (omega arith))

output-after_sent :
    (n : ℕ) (bytes : Bytes) (rest : List Bytes) (round : Round) (s : Stream)
    → output (after_sent n bytes rest round s) ≡ s.taken ++ (bytes ++ flat rest)
unfolding after_sent
output-after_sent n bytes rest round s = elim (Bool-cases (n == length bytes)) [
  | inl all ↦ rw all (ground (arith, take_all n bytes, append_assoc s.taken bytes (flat rest)))
  | inr part ↦ rw part (
      ground (
        arith,
        append_assoc s.taken (take n bytes) (drop n bytes ++ flat rest),
        append_assoc (take n bytes) (drop n bytes) (flat rest),
        take-append-drop n bytes,
      ))
]

pub lost-after_sent :
    (n : ℕ) (bytes : Bytes) (rest : List Bytes) (round : Round) (s : Stream)
    → (after_sent n bytes rest round s).lost ≡ s.lost
unfolding after_sent
lost-after_sent n bytes rest round s = refl

pub lost_unchanged :
    (n : ℕ) (bytes : Bytes) (rest : List Bytes) (round : Round) (s : Stream)
    → (limit_egress (after_sent n bytes rest round s)).lost ≡ s.lost
unfolding after_sent limit_egress
lost_unchanged n bytes rest round s = refl

output-limit_egress : (s : Stream) → output (limit_egress s) ≡ output s
unfolding limit_egress
output-limit_egress s = refl

-- What the loop may do to a stream: `l` is what it lost.
abbrev Conserves : Bytes → Stream → Stream → Bytes → Type 0
Conserves before s s' l =
    (s'.lost ≡ s.lost ++ l) × (s'.taken ++ (l ++ flat s'.write_queue) ≡ before)

write_loop-Conserves :
    (kernel : ℕ → Bytes → Round) (fuel k total : ℕ) (queue : List Bytes) (s s' : Stream)
    → s.write_queue ≡ queue
    → write_loop kernel fuel k total queue s ≡ some s'
    → (l : Bytes) × (Conserves (s.taken ++ flat queue) s s' l)
unfolding write_loop
write_loop-Conserves kernel zero k total queue s s' q e = cc
write_loop-Conserves kernel (suc fuel) k total [] s s' q e =
    ([], (ground (arith, append-nil s.lost), ground arith))
write_loop-Conserves kernel (suc fuel) k total (bytes ∷ rest) s s' q e =
    elim (write_round kernel fuel k total bytes rest s) [
      | blocks r o ↦ ([], (ground (arith, o, append-nil s.lost), ground (arith, o)))
      | fails r o ↦ (bytes, (ground (arith, o), ground (arith, o)))
      | limits n r over o ↦
          let s'' = after_sent n bytes rest (kernel k bytes) s in
          let end : limit_egress s'' ≡ s' = ground (arith, o) in
          (
            [],
            (
              ap (λ (x : Stream). x.lost) (sym end)
                  ∙ lost_unchanged n bytes rest (kernel k bytes) s
                  ∙ sym (append-nil s.lost),
              ap output (sym end)
                  ∙ output-limit_egress s''
                  ∙ output-after_sent n bytes rest (kernel k bytes) s,
            ),
          )
      | goes_on n r under o ↦
          let s'' = after_sent n bytes rest (kernel k bytes) s in
          let (l, kept) =
            write_loop-Conserves kernel fuel (k + 1) (total + n) s''.write_queue s'' s' refl
              (sym o ∙ e) in
          (
            l,
            (
              kept.0 ∙ ap (λ x. x ++ l) (lost-after_sent n bytes rest (kernel k bytes) s),
              kept.1 ∙ output-after_sent n bytes rest (kernel k bytes) s,
            ),
          )
    ]

-- After handleWrite the bytes that the kernel has taken since, then a piece that a failed write has
-- lost, then the bytes still queued, are the bytes that were queued, in their order: nothing is sent
-- twice or out of turn.
pub handle_write_in_order :
    (kernel : ℕ → Bytes → Round) (fuel : ℕ) (s s' : Stream)
    → handle_write kernel fuel s ≡ some s'
    → (l : Bytes) × (s'.lost ≡ s.lost ++ l) × (s'.taken ++ (l ++ flat s'.write_queue) ≡ output s)
unfolding handle_write notify_once connect_done
handle_write_in_order kernel fuel s s' e = elim (Bool-cases s.connected) [
  | inl open_stream ↦
      let e' : (write_loop kernel fuel 0 0 s.write_queue (begin_write s) >>= λ x.
      some (notify_once (is_empty s.write_queue) x))
          ≡ some s' =
        ground (arith, e) in
      let (s'', looped, end) =
        >>=-eq-some (write_loop kernel fuel 0 0 s.write_queue (begin_write s))
          (λ x. some (notify_once (is_empty s.write_queue) x)) e' in
      let (l, kept) =
        write_loop-Conserves kernel fuel 0 0 s.write_queue (begin_write s) s'' refl looped in
      (l, ground (arith, end, kept.0), ground (arith, end, kept.1))
  | inr connecting ↦ ([], ground (arith, append-nil s.lost), ground arith)
]
