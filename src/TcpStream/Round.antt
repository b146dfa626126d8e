-- ===== src/TcpStream/Round.antt =====
-- src/tcpstream.cpp: the rounds of the loop of handleWrite.
use epoller.Prelude.{
  ℕ, suc, ◌+◌, ◌≡◌, refl, Bool, true, false, not, ◌&&◌, List, ◌∷◌, ◌++◌, Bytes, ◌==◌, ltb, inl, inr,
  Option, some, arith, Bool-cases,
}
use epoller.TcpStream.Defs.{
  Stream, Round, WriteResult, sent, would_block, failed, after_sent, limit_egress, write_loop,
  current_rate,
}

-- Is the stream over its limit after a write?
abbrev pub over_limit : Stream → ℕ → Round → Bool
over_limit s total round =
    not (s.egress_rate == 0) && ltb s.egress_rate (current_rate total round.elapsed)

module _ (kernel : ℕ → Bytes → Round) (fuel k total : ℕ) (bytes : Bytes) (rest : List Bytes)
    (s : Stream) where
  abbrev pub looped : Option Stream
  looped = write_loop kernel (suc fuel) k total (bytes ∷ rest) s

  abbrev pub next : ℕ → Stream
  next n = after_sent n bytes rest (kernel k bytes) s

  -- The ways a round can go, with what the loop gives in each.
  pub data WriteRound : Type 0 where
    blocks :
        (kernel k bytes).result ≡ would_block
        → looped ≡ some (record s { write_queue = bytes ∷ rest; blocked = true })
        → WriteRound
    fails :
        (kernel k bytes).result ≡ failed
        → looped ≡ some (record s { write_queue = rest; lost = s.lost ++ bytes })
        → WriteRound
    limits :
        (n : ℕ)
        → (kernel k bytes).result ≡ sent n
        → over_limit s (total + n) (kernel k bytes) ≡ true
        → looped ≡ some (limit_egress (next n))
        → WriteRound
    goes_on :
        (n : ℕ)
        → (kernel k bytes).result ≡ sent n
        → over_limit s (total + n) (kernel k bytes) ≡ false
        → looped ≡ write_loop kernel fuel (k + 1) (total + n) (next n).write_queue (next n)
        → WriteRound

  pub write_round : WriteRound
  unfolding write_loop
  write_round = by_result (kernel k bytes).result refl
    where
      by_result : (r : WriteResult) → (kernel k bytes).result ≡ r → WriteRound
      by_result would_block e = blocks e (ground arith)
      by_result failed e = fails e (ground arith)
      by_result (sent n) e = elim (Bool-cases (over_limit s (total + n) (kernel k bytes))) [
        | inl over ↦ limits n e over (ground arith)
        | inr under ↦ goes_on n e under (ground arith)
      ]
