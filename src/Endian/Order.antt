-- ===== src/Endian/Order.antt =====
-- What the conversions of src/endians.hpp do on each kind of host.
use epoller.Prelude.{ℕ, ◌+◌, ◌*◌, ◌/◌, ◌%◌, ◌^◌, ◌<◌, ◌≡◌, ◌↔◌, refl, ◌∷◌, [], ◌++◌, Bytes, arith}
use epoller.Endian.{Host, little, big, word16, word32, push16, push32}

-- On a little-endian host a word read from a message has its first byte as the high one.
word16-little : (d0 d1 : ℕ) → word16 little d0 d1 ≡ 256 * d0 + d1
unfolding word16
word16-little d0 d1 = omega arith

word32-little :
    (d0 d1 d2 d3 : ℕ) → word32 little d0 d1 d2 d3 ≡ 0x1000000 * d0 + 0x10000 * d1 + 0x100 * d2 + d3
unfolding word32
word32-little d0 d1 d2 d3 = omega arith

push16-little :
    (d : ℕ) (stream : Bytes) → push16 little d stream ≡ stream ++ d / 256 % 256 ∷ d % 256 ∷ []
unfolding push16
push16-little d stream = refl

push32-little :
    (d : ℕ) (stream : Bytes)
    → push32 little d stream
      ≡ stream ++ d / 0x1000000 % 256 ∷ d / 0x10000 % 256 ∷ d / 0x100 % 256 ∷ d % 256 ∷ []
unfolding push32
push32-little d stream = refl

-- A word that is appended to a message on a host of either kind is read back there as it was.
word16-push16 :
    (h : Host) (d : ℕ) (stream : Bytes)
    → d < 2 ^ 16
    → (b0 b1 : ℕ) × (push16 h d stream ≡ stream ++ b0 ∷ b1 ∷ []) × (word16 h b0 b1 ≡ d)
unfolding push16 word16
word16-push16 little d stream p = (d / 256 % 256, d % 256, refl, omega arith)
word16-push16 big d stream p = (d % 256, d / 256 % 256, refl, omega arith)

-- Two bytes of a message are read as their word in network order, the first byte as the high one, on
-- every little-endian host; on a big-endian one only where the two bytes are the same.
pub word16-network_order :
    (d0 d1 : ℕ)
    → d0 < 256
    → d1 < 256
    → (word16 little d0 d1 ≡ 256 * d0 + d1) × ((word16 big d0 d1 ≡ 256 * d0 + d1) ↔ (d0 ≡ d1))
unfolding word16
word16-network_order d0 d1 p q = (omega arith, (λ e. omega (arith, e), λ e. omega (arith, e)))
