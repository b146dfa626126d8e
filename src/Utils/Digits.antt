-- ===== src/Utils/Digits.antt =====
-- src/utils.cpp: the digits of toHexString, as they are read back.
use epoller.Prelude.{
  ℕ, zero, suc, ◌+◌, ◌-◌, ◌*◌, ◌/◌, ◌%◌, ◌≡◌, ◌≢◌, ◌<◌, ◌≤◌, refl, ap, ◌∙◌, inl, inr, Bool, true,
  false, List, [], ◌∷◌, ◌++◌, Bytes, ◌==◌, ltb, if◌then◌else◌, length, replicate, arith, dec_lt,
  All, All-append, Bool-cases,
}
use epoller.Utils.{digit, hex_digits, hex}

-- The value of a digit.
abbrev pub unhex : ℕ → ℕ
unhex c = if ltb c b'a' then c - b'0' else c - b'a' + 10

-- The digits between a colon and the end of its line.
unfoldable pub nibbles : Bool → Bytes → List ℕ
nibbles in_row [] = []
nibbles false (c ∷ text) =
    let skipped = nibbles false text in
    let row = nibbles true text in if c == b':' then row else skipped
nibbles true (c ∷ text) =
    let ended = nibbles false text in
    let more = nibbles true text in
    if c == 10 then ended else if c == b' ' then more else unhex c ∷ more

unfoldable pub pair_up : List ℕ → Bytes
pair_up [] = []
pair_up (a ∷ []) = []
pair_up (a ∷ b ∷ rest) = (16 * a + b) ∷ pair_up rest

-- What a reader of the rows makes of a text.
unfoldable pub read_hex : Bytes → Bytes
unfolding nibbles pair_up
read_hex text = pair_up (nibbles false text)

-- A character that is neither a colon, a space nor the end of a line.
abbrev pub IsDigit : ℕ → Type 0
IsDigit c = (b'0' ≤ c) × (c ≢ b':')

digit-IsDigit : (d : ℕ) → d < 16 → IsDigit (digit d)
digit-IsDigit d h = (ground (arith, h), λ e. ground (arith, h, e))

hex_digits-IsDigit : (n d : ℕ) → All IsDigit (hex_digits n d)
unfolding hex_digits
hex_digits-IsDigit zero d = tt
hex_digits-IsDigit (suc n) d = elim (Bool-cases (d / 16 == 0)) [
  | inl small ↦ rw small (digit-IsDigit (d % 16) (omega arith), tt)
  | inr large ↦ rw large (
      All-append IsDigit (hex_digits n (d / 16)) (digit (d % 16) ∷ [])
        (hex_digits-IsDigit n (d / 16)) (digit-IsDigit (d % 16) (omega arith), tt))
]

zeros-IsDigit : (n : ℕ) → All IsDigit (replicate n b'0')
zeros-IsDigit zero = tt
zeros-IsDigit (suc n) = ((omega arith, omega arith), zeros-IsDigit n)

pub hex-IsDigit : (width d : ℕ) → All IsDigit (hex width d)
unfolding hex
hex-IsDigit width d =
    All-append IsDigit (replicate (width - length (hex_digits 16 d)) b'0') (hex_digits 16 d)
      (zeros-IsDigit (width - length (hex_digits 16 d))) (hex_digits-IsDigit 16 d)

-- A reader skips the number in front of a row.
pub nibbles_skip :
    (label rest : Bytes) → All IsDigit label → nibbles false (label ++ rest) ≡ nibbles false rest
unfolding nibbles
nibbles_skip [] rest all = refl
nibbles_skip (c ∷ label) rest all = ground (arith, all.0, nibbles_skip label rest all.1)

hex_digits_one : (n d : ℕ) → d < 16 → hex_digits (suc n) d ≡ digit d ∷ []
unfolding hex_digits
hex_digits_one n d h =
    let whole : d % 16 ≡ d = omega (arith, h) in
    let none_left : (d / 16 == 0) ≡ true = ground (arith, h) in rw (none_left, whole)

hex_digits_two :
    (n d : ℕ) → 16 ≤ d → d < 256 → hex_digits (suc (suc n)) d ≡ digit (d / 16) ∷ digit (d % 16) ∷ []
unfolding hex_digits
hex_digits_two n d low h =
    let left : (d / 16 == 0) ≡ false = ground (arith, low) in
    rw (left, hex_digits_one n (d / 16) (omega (arith, h)))

hex_byte : (b : ℕ) → b < 256 → hex 2 b ≡ digit (b / 16) ∷ digit (b % 16) ∷ []
unfolding hex
hex_byte b h = elim (dec_lt b 16) [
  | yes small ↦
      let none_left : b / 16 ≡ 0 = omega (arith, small) in
      let whole : b % 16 ≡ b = omega (arith, small) in
      rw (hex_digits_one 15 b small, none_left, whole)
  | no large ↦ rw (hex_digits_two 14 b (omega (arith, large)) h)
]

unfoldable pub split : Bytes → List ℕ
split [] = []
split (b ∷ bs) = b / 16 ∷ b % 16 ∷ split bs

nibbles-digit :
    (d : ℕ) (rest : Bytes) → d < 16 → nibbles true (digit d ∷ rest) ≡ d ∷ nibbles true rest
unfolding nibbles
nibbles-digit d rest h = ground (arith, h)

pub nibbles_byte :
    (b : ℕ) (rest : Bytes)
    → b < 256
    → nibbles true (hex 2 b ++ rest) ≡ b / 16 ∷ b % 16 ∷ nibbles true rest
nibbles_byte b rest h = rw (hex_byte b h) (
    nibbles-digit (b / 16) (digit (b % 16) ∷ rest) (omega (arith, h))
    ∙ ap (λ ns. b / 16 ∷ ns) (nibbles-digit (b % 16) rest (omega arith)))
