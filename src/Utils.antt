-- ===== src/Utils.antt =====
-- src/utils.cpp and src/utils.hpp: text for logs. The assertions and pErrorThrow trap, which the other
-- modules have as results.
pub mod Digits
pub mod Hex
pub mod Flags
mod Tests
use epoller.Prelude.{
  ℕ, zero, suc, ◌+◌, ◌-◌, ◌*◌, ◌/◌, ◌%◌, ◌^◌, Bool, true, false, List, [], ◌∷◌, ◌++◌, Bytes, ◌==◌,
  ltb, if◌then◌else◌, length, take, drop, replicate,
}
use Prim.Native.Nat.{bit_and}

abbrev pub digit : ℕ → ℕ
digit d = if ltb d 10 then b'0' + d else b'a' + (d - 10)

-- std::hex: the digits of a number of `n` digits at most, without zeros in front.
unfoldable pub hex_digits : ℕ → ℕ → Bytes
hex_digits zero d = []
hex_digits (suc n) d =
    let front = hex_digits n (d / 16) in (if d / 16 == 0 then [] else front) ++ digit (d % 16) ∷ []

-- std::setw and std::setfill('0') for a size_t.
unfoldable pub hex : ℕ → ℕ → Bytes
unfolding hex_digits
hex width d = replicate (width - length (hex_digits 16 d)) b'0' ++ hex_digits 16 d

-- The inner loop of toHexString, over the bytes of one row.
unfoldable pub hex_row : Bytes → Bytes
unfolding hex
hex_row [] = []
hex_row (a ∷ []) = b' ' ∷ hex 2 a
hex_row (a ∷ b ∷ row) = b' ' ∷ (hex 2 a ++ (hex 2 b ++ hex_row row))

-- The outer loop: the number of rows that are left, `i`, and the bytes from row `i` on.
unfoldable pub hex_rows : ℕ → ℕ → Bytes → Bytes
unfolding hex_row
hex_rows zero i src = []
hex_rows (suc n) i src =
    b':'
    ∷ (hex_row (take 32 src) ++ 10 ∷ (hex 8 ((i + 1) * 32) ++ hex_rows n (i + 1) (drop 32 src)))

abbrev pub rows_of : Bytes → ℕ
rows_of src = if ltb 0 (length src) then (length src - 1) / 32 + 1 else 0

-- toHexString.
unfoldable pub to_hex_string : Bytes → Bytes
unfolding hex_rows
to_hex_string src = 10 ∷ (hex 8 0 ++ (hex_rows (rows_of src) 0 src ++ 10 ∷ []))

-- intToHexString of an unsigned number.
unfoldable pub int_to_hex_string : ℕ → Bytes
unfolding hex_digits
int_to_hex_string number = hex_digits 16 number

-- The cases of pollEventToString, with the flags of <sys/epoll.h>. The names stand behind "EPOLL".
abbrev flag_names : List (ℕ × Bytes)
flag_names =
    (0x1, b'I' ∷ b'N' ∷ [])
    ∷ (0x2, b'P' ∷ b'R' ∷ b'I' ∷ [])
    ∷ (0x4, b'O' ∷ b'U' ∷ b'T' ∷ [])
    ∷ (0x40, b'R' ∷ b'D' ∷ b'N' ∷ b'O' ∷ b'R' ∷ b'M' ∷ [])
    ∷ (0x80, b'R' ∷ b'D' ∷ b'B' ∷ b'A' ∷ b'N' ∷ b'D' ∷ [])
    ∷ (0x100, b'W' ∷ b'R' ∷ b'N' ∷ b'O' ∷ b'R' ∷ b'M' ∷ [])
    ∷ (0x200, b'W' ∷ b'R' ∷ b'B' ∷ b'A' ∷ b'N' ∷ b'D' ∷ [])
    ∷ (0x400, b'M' ∷ b'S' ∷ b'G' ∷ [])
    ∷ (0x8, b'E' ∷ b'R' ∷ b'R' ∷ [])
    ∷ (0x10, b'H' ∷ b'U' ∷ b'P' ∷ [])
    ∷ (0x2000, b'R' ∷ b'D' ∷ b'H' ∷ b'U' ∷ b'P' ∷ [])
    ∷ (0x20000000, b'W' ∷ b'A' ∷ b'K' ∷ b'E' ∷ b'U' ∷ b'P' ∷ [])
    ∷ (0x40000000, b'O' ∷ b'N' ∷ b'E' ∷ b'S' ∷ b'H' ∷ b'O' ∷ b'T' ∷ [])
    ∷ (0x80000000, b'E' ∷ b'T' ∷ [])
    ∷ []

abbrev epoll : Bytes
epoll = b'E' ∷ b'P' ∷ b'O' ∷ b'L' ∷ b'L' ∷ []

name_in : List (ℕ × Bytes) → ℕ → Bytes
name_in [] event = []
name_in ((flag, name) ∷ flags) event =
    let other = name_in flags event in if event == flag then epoll ++ name else other

-- pollEventToString.
unfoldable pub poll_event_to_string : ℕ → Bytes
unfolding name_in
poll_event_to_string event = name_in flag_names event

-- "EMPTY" and " | ".
abbrev pub empty_text : Bytes
empty_text = b'E' ∷ b'M' ∷ b'P' ∷ b'T' ∷ b'Y' ∷ []

abbrev pub bar : Bytes
bar = b' ' ∷ b'|' ∷ b' ' ∷ []

-- The name of the flag at a position.
unfoldable pub name_at : ℕ → ℕ → Bytes
unfolding poll_event_to_string
name_at bit_pos events = poll_event_to_string (bit_and events (2 ^ bit_pos))

-- The loop of pollEventsToString over the positions below `n`, down to 0: isFirst and the stream.
unfoldable pub poll_loop : ℕ → ℕ → Bool → Bytes → Bytes
poll_loop zero events is_first stream = stream
poll_loop (suc bit_pos) events is_first stream = elim (name_at bit_pos events) [
  | [] ↦ poll_loop bit_pos events is_first stream
  | c ∷ name ↦
      poll_loop bit_pos events false ((if is_first then stream else stream ++ bar) ++ c ∷ name)
]

-- pollEventsToString.
unfoldable pub poll_events_to_string : ℕ → Bytes
unfolding poll_loop
poll_events_to_string events =
    let text = poll_loop 32 events true [] in if ltb 0 (length text) then text else empty_text
