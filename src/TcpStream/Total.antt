-- ===== src/TcpStream/Total.antt =====
-- src/tcpstream.cpp: the rounds that the loop of handleWrite needs.
use epoller.Prelude.{
  flat, ℕ, zero, suc, ◌+◌, ◌≤◌, ◌<◌, ◌≡◌, refl, ◌∙◌, inl, inr, List, [], ◌∷◌, Bytes, some, length,
  length-append, length-drop, drop, All, arith, Bool-cases,
}
use epoller.TcpStream.Round.{write_round, blocks, fails, limits, goes_on}
use epoller.TcpStream.Defs.{
  Stream, Round, sent, after_sent, write_loop, notify_once, connect_done, begin_write, handle_write,
  is_empty,
}

-- A kernel that takes at least one byte, and no more than it is given, of what it does not refuse.
pub record IsKernel (kernel : ℕ → Bytes → Round) : Type 0 where
  pub progress :
      (k n : ℕ) (bytes : Bytes) → 0 < length bytes → (kernel k bytes).result ≡ sent n → 0 < n
  pub fits : (k n : ℕ) (bytes : Bytes) → (kernel k bytes).result ≡ sent n → n ≤ length bytes

abbrev pub NonEmpty : List Bytes → Type 0
NonEmpty = All (λ b. 0 < length b)

-- The queue has fewer bytes after a write, and still no empty piece.
after_sent_smaller :
    (n : ℕ) (bytes : Bytes) (rest : List Bytes) (round : Round) (s : Stream)
    → 0 < n
    → n ≤ length bytes
    → NonEmpty rest
    → (length (flat (after_sent n bytes rest round s).write_queue) < length (flat (bytes ∷ rest)))
      × NonEmpty (after_sent n bytes rest round s).write_queue
unfolding after_sent
after_sent_smaller n bytes rest round s p q h = ground (
  arith,
  length-append bytes (flat rest),
  length-append (drop n bytes) (flat rest),
  length-drop n bytes,
)

write_loop_total :
    (kernel : ℕ → Bytes → Round)
    → IsKernel kernel
    → (fuel k total : ℕ) (queue : List Bytes) (s : Stream) → NonEmpty queue
    → length (flat queue) < fuel
    → (s' : Stream) × (write_loop kernel fuel k total queue s ≡ some s')
unfolding write_loop
write_loop_total kernel w zero k total queue s h f = absurd (omega arith)
write_loop_total kernel w (suc fuel) k total [] s h f = (s, refl)
write_loop_total kernel w (suc fuel) k total (bytes ∷ rest) s h f =
    elim (write_round kernel fuel k total bytes rest s) [
      | blocks r o ↦ (_, o)
      | fails r o ↦ (_, o)
      | limits n r over o ↦ (_, o)
      | goes_on n r under o ↦
          let s'' = after_sent n bytes rest (kernel k bytes) s in
          let less =
            after_sent_smaller n bytes rest (kernel k bytes) s (w.progress k n bytes h.0 r)
              (w.fits k n bytes r) h.1 in
          let (s', e) =
            write_loop_total kernel w fuel (k + 1) (total + n) s''.write_queue s'' less.1
              (omega (arith, less.0)) in
          (s', o ∙ e)
    ]

-- With a kernel that makes progress handleWrite ends: rounds for every queued byte, and one more, are
-- enough.
pub handle_write_total :
    (kernel : ℕ → Bytes → Round) (fuel : ℕ) (s : Stream)
    → IsKernel kernel
    → NonEmpty s.write_queue
    → length (flat s.write_queue) < fuel
    → (s' : Stream) × (handle_write kernel fuel s ≡ some s')
unfolding handle_write
handle_write_total kernel fuel s w h f =
    let (s', e) = write_loop_total kernel w fuel 0 0 s.write_queue (begin_write s) h f in
    elim (Bool-cases s.connected) [
      | inl open_stream ↦ (notify_once (is_empty s.write_queue) s', ground (arith, e))
      | inr connecting ↦ (connect_done (begin_write s), ground arith)
    ]
