-- ===== src/Utils/Tests.antt =====
-- Runs of src/utils.cpp, and the theorems at them.
use epoller.Prelude.{◌≡◌, [], ◌∷◌, Bytes, arith}
use epoller.Utils.{to_hex_string}
use epoller.Utils.Digits.{read_hex}
use epoller.Utils.Hex.{read_hex-to_hex_string}

abbrev three_bytes : Bytes
three_bytes = 0x0d ∷ 0xa0 ∷ 0xff ∷ []

read_hex-to_hex_string_example : read_hex (to_hex_string three_bytes) ≡ three_bytes
read_hex-to_hex_string_example =
    read_hex-to_hex_string three_bytes (omega arith, (omega arith, (omega arith, tt)))
