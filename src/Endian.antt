-- ===== src/Endian.antt =====
-- src/endians.hpp: conversions between a host's words and the network's byte order.
-- A union of a word and its bytes is read through `from_memory` and `to_memory`, which depend on
-- the byte order of the host.
pub mod Order
mod Tests
use epoller.Prelude.{ℕ, ◌+◌, ◌*◌, ◌/◌, ◌%◌, Bool, true, List, [], ◌∷◌, ◌++◌, Bytes, if◌then◌else◌}

pub data Host : Type 0 where
  little big : Host

-- union U16Swap: the word that two bytes in memory stand for, and back.
unfoldable pub from_memory16 : Host → ℕ → ℕ → ℕ
from_memory16 little b0 b1 = b0 + 256 * b1
from_memory16 big b0 b1 = 256 * b0 + b1

unfoldable pub to_memory16 : Host → ℕ → ℕ × ℕ
to_memory16 little d = (d % 256, d / 256 % 256)
to_memory16 big d = (d / 256 % 256, d % 256)

-- union U32Swap.
unfoldable pub from_memory32 : Host → ℕ → ℕ → ℕ → ℕ → ℕ
from_memory32 little b0 b1 b2 b3 = b0 + 0x100 * b1 + 0x10000 * b2 + 0x1000000 * b3
from_memory32 big b0 b1 b2 b3 = 0x1000000 * b0 + 0x10000 * b1 + 0x100 * b2 + b3

unfoldable pub to_memory32 : Host → ℕ → ℕ × ℕ × ℕ × ℕ
to_memory32 little d = (d % 256, d / 0x100 % 256, d / 0x10000 % 256, d / 0x1000000 % 256)
to_memory32 big d = (d / 0x1000000 % 256, d / 0x10000 % 256, d / 0x100 % 256, d % 256)

-- The initialiser is a lambda that is never called: as a bool the lambda is a pointer that is not
-- null, so the constant is true on every host.
abbrev pub big_endian : Bool
big_endian = true

-- bswap_16 and bswap_32 of <byteswap.h>.
abbrev bswap16 : ℕ → ℕ
bswap16 d = d / 256 % 256 + 256 * (d % 256)

abbrev bswap32 : ℕ → ℕ
bswap32 d =
    d / 0x1000000 % 256
    + 0x100 * (d / 0x10000 % 256)
    + 0x10000 * (d / 0x100 % 256)
    + 0x1000000 * (d % 256)

-- networkEndian(uint16_t).
unfoldable pub network_endian16 : ℕ → ℕ
network_endian16 d0 = if big_endian then bswap16 d0 else d0

-- networkEndian(uint32_t).
unfoldable pub network_endian32 : ℕ → ℕ
network_endian32 d0 = if big_endian then bswap32 d0 else d0

-- networkEndian(uint8_t, uint8_t): two bytes of a message as a word.
unfoldable pub word16 : Host → ℕ → ℕ → ℕ
unfolding from_memory16
word16 h d0 d1 = if big_endian then from_memory16 h d1 d0 else from_memory16 h d0 d1

-- networkEndian(uint8_t, uint8_t, uint8_t, uint8_t).
unfoldable pub word32 : Host → ℕ → ℕ → ℕ → ℕ → ℕ
unfolding from_memory32
word32 h d0 d1 d2 d3 =
    if big_endian then from_memory32 h d3 d2 d1 d0 else from_memory32 h d0 d1 d2 d3

-- networkEndian(uint16_t, stream): appends a word to a message.
unfoldable pub push16 : Host → ℕ → Bytes → Bytes
unfolding to_memory16
push16 h d stream =
    let (b0, b1) = to_memory16 h d in
    if big_endian then stream ++ b1 ∷ b0 ∷ [] else stream ++ b0 ∷ b1 ∷ []

-- networkEndian(uint32_t, stream).
unfoldable pub push32 : Host → ℕ → Bytes → Bytes
unfolding to_memory32
push32 h d stream =
    let (b0, b1, b2, b3) = to_memory32 h d in
    if big_endian then stream ++ b3 ∷ b2 ∷ b1 ∷ b0 ∷ [] else stream ++ b0 ∷ b1 ∷ b2 ∷ b3 ∷ []
