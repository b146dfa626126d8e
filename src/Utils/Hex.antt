-- ===== src/Utils/Hex.antt =====
-- src/utils.cpp: the text that toHexString makes, as it is read back.
use epoller.Prelude.{
  ℕ, zero, suc, ◌+◌, ◌*◌, ◌/◌, ◌%◌, ◌≡◌, ◌≤◌, refl, ap, ◌∙◌, true, false, List, [], ◌∷◌, ◌++◌,
  Bytes, length, take, drop, arith, IsBytes, append_assoc, take-append-drop, length-drop,
}
use epoller.Utils.{hex, hex_row, hex_rows, rows_of, to_hex_string}
use epoller.Utils.Digits.{
  nibbles, pair_up, read_hex, nibbles_skip, hex-IsDigit, split, nibbles_byte,
}

nibbles_space : (rest : Bytes) → nibbles true (b' ' ∷ rest) ≡ nibbles true rest
unfolding nibbles
nibbles_space rest = refl

nibbles_end : (rest : Bytes) → nibbles true (10 ∷ rest) ≡ nibbles false rest
unfolding nibbles
nibbles_end rest = refl

hex_row_one : (a : ℕ) → hex_row (a ∷ []) ≡ b' ' ∷ hex 2 a
unfolding hex_row
hex_row_one a = refl

hex_row_two :
    (a b : ℕ) (row : Bytes) → hex_row (a ∷ b ∷ row) ≡ b' ' ∷ (hex 2 a ++ (hex 2 b ++ hex_row row))
unfolding hex_row
hex_row_two a b row = refl

-- The digits of a row, up to the end of its line.
nibbles_row :
    (row rest : Bytes)
    → IsBytes row
    → nibbles true (hex_row row ++ 10 ∷ rest) ≡ split row ++ nibbles false rest
unfolding split
nibbles_row [] rest all = unfold hex_row in nibbles_end rest
nibbles_row (a ∷ []) rest all = rw (hex_row_one a) (
    nibbles_space (hex 2 a ++ 10 ∷ rest)
    ∙ nibbles_byte a (10 ∷ rest) all.0
    ∙ ap (λ ns. a / 16 ∷ a % 16 ∷ ns) (nibbles_end rest))
nibbles_row (a ∷ b ∷ row) rest all =
    let more = hex 2 b ++ hex_row row in
    rw (hex_row_two a b row) (
      nibbles_space ((hex 2 a ++ more) ++ 10 ∷ rest)
      ∙ ap (nibbles true) (append_assoc (hex 2 a) more (10 ∷ rest))
      ∙ nibbles_byte a (more ++ 10 ∷ rest) all.0
      ∙ ap (λ t. a / 16 ∷ a % 16 ∷ nibbles true t)
          (append_assoc (hex 2 b) (hex_row row) (10 ∷ rest))
      ∙ ap (λ ns. a / 16 ∷ a % 16 ∷ ns) (nibbles_byte b (hex_row row ++ 10 ∷ rest) all.1.0)
      ∙ ap (λ ns. a / 16 ∷ a % 16 ∷ b / 16 ∷ b % 16 ∷ ns) (nibbles_row row rest all.1.1))

pair_up-split : (bs : Bytes) (rest : List ℕ) → pair_up (split bs ++ rest) ≡ bs ++ pair_up rest
unfolding pair_up split
pair_up-split [] rest = refl
pair_up-split (b ∷ bs) rest =
    let whole : 16 * (b / 16) + b % 16 ≡ b = omega arith in rw (whole, pair_up-split bs rest)

IsBytes-take : (n : ℕ) (bs : Bytes) → IsBytes bs → IsBytes (take n bs)
IsBytes-take zero bs all = tt
IsBytes-take (suc n) [] all = tt
IsBytes-take (suc n) (b ∷ bs) all = (all.0, IsBytes-take n bs all.1)

IsBytes-drop : (n : ℕ) (bs : Bytes) → IsBytes bs → IsBytes (drop n bs)
IsBytes-drop zero bs all = all
IsBytes-drop (suc n) [] all = tt
IsBytes-drop (suc n) (b ∷ bs) all = IsBytes-drop n bs all.1

nibbles_colon : (rest : Bytes) → nibbles false (b':' ∷ rest) ≡ nibbles true rest
unfolding nibbles
nibbles_colon rest = refl

nibbles_line : (rest : Bytes) → nibbles false (10 ∷ rest) ≡ nibbles false rest
unfolding nibbles
nibbles_line rest = refl

hex_rows_step :
    (n i : ℕ) (src : Bytes)
    → hex_rows (suc n) i src
      ≡ b':'
        ∷ (hex_row (take 32 src) ++ 10 ∷ (hex 8 ((i + 1) * 32) ++ hex_rows n (i + 1) (drop 32 src)))
unfolding hex_rows
hex_rows_step n i src = refl

-- The rows, as they are read back.
read_rows :
    (n i : ℕ) (src : Bytes)
    → IsBytes src
    → length src ≤ 32 * n
    → pair_up (nibbles false (hex_rows n i src ++ 10 ∷ [])) ≡ src
read_rows zero i [] all fits = unfold hex_rows nibbles pair_up in refl
read_rows zero i (b ∷ src) all fits = absurd (omega (arith, fits))
read_rows (suc n) i src all fits =
    let row = take 32 src in
    let left = hex_rows n (i + 1) (drop 32 src) in
    let label = hex 8 ((i + 1) * 32) in
    let later =
      read_rows n (i + 1) (drop 32 src) (IsBytes-drop 32 src all)
        (omega (arith, fits, length-drop 32 src)) in
    rw (hex_rows_step n i src) (
      ap pair_up (
        nibbles_colon ((hex_row row ++ 10 ∷ (label ++ left)) ++ 10 ∷ [])
        ∙ ap (nibbles true) (append_assoc (hex_row row) (10 ∷ (label ++ left)) (10 ∷ []))
        ∙ nibbles_row row ((label ++ left) ++ 10 ∷ []) (IsBytes-take 32 src all)
        ∙ ap (λ t. split row ++ nibbles false t) (append_assoc label left (10 ∷ []))
        ∙ ap (λ ns. split row ++ ns)
            (nibbles_skip label (left ++ 10 ∷ []) (hex-IsDigit 8 ((i + 1) * 32))))
      ∙ pair_up-split row (nibbles false (left ++ 10 ∷ []))
      ∙ ap (λ bs. row ++ bs) later
      ∙ take-append-drop 32 src)

rows_of-enough : (src : Bytes) → length src ≤ 32 * rows_of src
rows_of-enough [] = omega arith
rows_of-enough (b ∷ src) = ground arith

-- A reader of the rows finds in the text that toHexString makes of some bytes the same bytes.
pub read_hex-to_hex_string : (src : Bytes) → IsBytes src → read_hex (to_hex_string src) ≡ src
unfolding read_hex to_hex_string
read_hex-to_hex_string src all =
    ap pair_up (
      nibbles_line (hex 8 0 ++ (hex_rows (rows_of src) 0 src ++ 10 ∷ []))
      ∙ nibbles_skip (hex 8 0) (hex_rows (rows_of src) 0 src ++ 10 ∷ []) (hex-IsDigit 8 0))
    ∙ read_rows (rows_of src) 0 src all (rows_of-enough src)
