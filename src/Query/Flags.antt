-- ===== src/Query/Flags.antt =====
-- src/query.cpp: getBits, setBits and the accessors of ReqFlags, the flag word of a DNS header.
use Prim.Native.Nat.{bit_and, bit_or}
use epoller.Prelude.{ℕ, ◌-◌, ◌*◌, ◌/◌, ◌%◌, ◌^◌}

-- A uint16_t mask of `bit_len` ones from `start_bit_pos` up.
abbrev mask16 : ℕ → ℕ → ℕ
mask16 start_bit_pos bit_len = ((2 ^ bit_len - 1) * 2 ^ start_bit_pos) % 2 ^ 16

unfoldable pub get_bits : ℕ → ℕ → ℕ → ℕ
get_bits d start_bit_pos bit_len = bit_and d (mask16 start_bit_pos bit_len) / 2 ^ start_bit_pos

unfoldable pub set_bits : ℕ → ℕ → ℕ → ℕ → ℕ
set_bits d start_bit_pos bit_len val =
    let clear_mask = 2 ^ 16 - 1 - mask16 start_bit_pos bit_len in
    let set_mask = (bit_and val (2 ^ bit_len - 1) * 2 ^ start_bit_pos) % 2 ^ 16 in
    bit_or (bit_and d clear_mask) set_mask

-- The accessors of ReqFlags differ in the position and the length that they pass.
pub data Flag : Type 0 where
  qr opcode aa tc rd ra z ad cd rcode : Flag

unfoldable pub bit_pos : Flag → ℕ
bit_pos qr = 15
bit_pos opcode = 11
bit_pos aa = 10
bit_pos tc = 9
bit_pos rd = 8
bit_pos ra = 7
bit_pos z = 6
bit_pos ad = 5
bit_pos cd = 4
bit_pos rcode = 0

unfoldable pub bit_count : Flag → ℕ
bit_count opcode = 4
bit_count rcode = 4
bit_count _ = 1

pub record ReqFlags : Type 0 where
  pub d : ℕ

unfoldable pub get_flag : Flag → ReqFlags → ℕ
unfolding bit_pos bit_count get_bits
get_flag f flags = get_bits flags.d (bit_pos f) (bit_count f)

unfoldable pub set_flag : Flag → ℕ → ReqFlags → ReqFlags
unfolding bit_pos bit_count set_bits
set_flag f val flags = record { d = set_bits flags.d (bit_pos f) (bit_count f) val }
