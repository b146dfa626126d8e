-- ===== src/Query/Name/Decode.antt =====
-- src/query.cpp: what decodeName reads.
use epoller.Prelude.{
  ℕ, ◌+◌, ◌-◌, ◌≤◌, ◌<◌, ◌≡◌, refl, true, false, not, List, [], ◌∷◌, ◌++◌, append-nil, append_assoc,
  Bytes, All, length, length-append, arith, some, drop-append, get_elem?-append,
}
use epoller.Prelude.Table.{passes_under, passes_under_lem}
use epoller.Query.Name.{is_pointer, decode_chars, decode_name}
use epoller.Query.Name.Wire.{IsLabelChar, IsLabel, dotted, text_of, counted, wire}

not_pointer_table : passes_under (λ n. not (is_pointer n)) 64 ≡ true
unfolding passes_under is_pointer
not_pointer_table = refl

-- The length of a label is not taken for a compression pointer.
pub is_pointer_small : (n : ℕ) → n < 64 → is_pointer n ≡ false
is_pointer_small n h =
    ground (arith, passes_under_lem (λ k. not (is_pointer k)) 64 n h not_pointer_table)

decode_chars-label :
    (l rest name : Bytes) (cur n : ℕ)
    → All IsLabelChar l
    → length l ≤ n
    → n < 64
    → decode_chars (l ++ rest) cur n name
      ≡ decode_chars rest (cur + length l) (n - length l) (name ++ l)
unfolding decode_chars
decode_chars-label [] rest name cur n h p q = ground (arith, append-nil name)
decode_chars-label (c ∷ l) rest name cur n h p q = ground (
  arith,
  is_pointer_small n q,
  append_assoc name (c ∷ []) l,
  decode_chars-label l rest (name ++ c ∷ []) (cur + 1) (n - 1) h.1,
)

decode_chars-counted :
    (ls : List Bytes) (rest name : Bytes) (cur : ℕ)
    → All IsLabel ls
    → decode_chars (counted ls ++ 0 ∷ rest) cur 0 name
      ≡ some (name ++ dotted ls, cur + length (counted ls) + 1)
unfolding decode_chars
decode_chars-counted [] rest name cur h = ground (arith, append-nil name)
decode_chars-counted (l ∷ ls) rest name cur h =
    let dot = name ++ b'.' ∷ [] in
    ground (
      arith,
      h.0.nonempty,
      h.0.short,
      is_pointer_small 0 (omega arith),
      append_assoc l (counted ls) (0 ∷ rest),
      decode_chars-label l (counted ls ++ 0 ∷ rest) dot (cur + 1) (length l) h.0.chars,
      decode_chars-counted ls rest (dot ++ l) (cur + 1 + length l) h.1,
      length-append l (counted ls),
      append_assoc dot l (dotted ls),
      append_assoc name (b'.' ∷ []) (l ++ dotted ls),
    )

-- decodeName reads the name that stands at its position in a message, of one label or more, gives
-- its text, and moves to the position behind it.
pub decode_name-wire :
    (before rest l : Bytes) (ls : List Bytes)
    → IsLabel l
    → All IsLabel ls
    → decode_name (before ++ (wire l ls ++ rest)) (length before)
      ≡ some (text_of l ls, length before + length (wire l ls))
unfolding decode_name
decode_name-wire before rest l ls h hs =
    let tail = l ++ counted ls ++ 0 ∷ [] ++ rest in
    ground (
      arith,
      h.short,
      get_elem?-append before (length l ∷ tail) 0,
      drop-append before (length l ∷ tail) 1,
      append_assoc l (counted ls) (0 ∷ []),
      append_assoc (l ++ counted ls) (0 ∷ []) rest,
      append_assoc l (counted ls) (0 ∷ rest),
      decode_chars-label l (counted ls ++ 0 ∷ rest) [] (length before + 1) (length l) h.chars,
      decode_chars-counted ls rest l (length before + 1 + length l) hs,
      length-append l (counted ls),
      length-append (l ++ counted ls) (0 ∷ []),
    )
