-- ===== src/Endian/Tests.antt =====
-- Runs of the conversions of src/endians.hpp, and the theorems at them.
use epoller.Prelude.{ℕ, ◌+◌, ◌*◌, ◌≡◌, ◌↔◌, refl, [], ◌∷◌, arith}
use epoller.Endian.{little, big, word16, word32, push32}
use epoller.Endian.Order.{word16-network_order}

word16-big_run : word16 big 0x12 0x34 ≡ 0x3412
unfolding word16
word16-big_run = refl

word32-little_run : word32 little 0x12 0x34 0x56 0x78 ≡ 0x12345678
unfolding word32
word32-little_run = refl

push32-little_run : push32 little 0x12345678 (9 ∷ []) ≡ 9 ∷ 0x12 ∷ 0x34 ∷ 0x56 ∷ 0x78 ∷ []
unfolding push32
push32-little_run = refl

abbrev high : ℕ
high = 0x12

abbrev low : ℕ
low = 0x34

word16-network_order_example :
    (word16 little high low ≡ 256 * high + low)
    × ((word16 big high low ≡ 256 * high + low) ↔ (high ≡ low))
word16-network_order_example = word16-network_order high low (omega arith) (omega arith)
