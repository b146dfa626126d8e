-- ===== src/Query/Name/Lengths.antt =====
-- src/query.cpp: the lengths and positions that getLen gives for the labels of a name.
use epoller.Prelude.{
  ℕ, suc, ◌+◌, ◌-◌, ◌%◌, ◌≤◌, ◌<◌, ◌≡◌, refl, ap, sym, ◌∙◌, List, [], ◌∷◌, ◌++◌, append-nil,
  append_assoc, Bytes, All, length, length-append, arith,
}
use epoller.Query.Name.{npos, find_dot, get_len}
use epoller.Query.Name.Wire.{IsLabelChar, IsLabel, dotted, text_of}

-- The position of the first dot of `dotted ls` at `pos`.
abbrev pub next_dot : List Bytes → ℕ → ℕ
next_dot [] pos = npos
next_dot (l ∷ ls) pos = pos

find_dot-label :
    (l rest : Bytes) (i from : ℕ)
    → All IsLabelChar l
    → find_dot i from (l ++ rest) ≡ find_dot (i + length l) from rest
unfolding find_dot
find_dot-label [] rest i from h = ap (λ k. find_dot k from rest) (omega arith)
find_dot-label (c ∷ l) rest i from h =
    let e : i + 1 + length l ≡ i + suc (length l) = omega arith in
    ground (arith, h.0, find_dot-label l rest (i + 1) from h.1)

find_dot_before :
    (pre rest : Bytes) (i from : ℕ)
    → i + length pre ≤ from
    → find_dot i from (pre ++ rest) ≡ find_dot (i + length pre) from rest
unfolding find_dot
find_dot_before [] rest i from h = ap (λ k. find_dot k from rest) (omega arith)
find_dot_before (c ∷ pre) rest i from h =
    let e : i + 1 + length pre ≡ i + suc (length pre) = omega arith in
    ground (arith, find_dot_before pre rest (i + 1) from)

find_dot-dotted :
    (ls : List Bytes) (i from : ℕ) → from ≤ i → find_dot i from (dotted ls) ≡ next_dot ls i
unfolding find_dot
find_dot-dotted [] i from h = refl
find_dot-dotted (l ∷ ls) i from h = ground arith

-- The dot behind a label that stands behind a dot.
find_dot_behind :
    (pre l : Bytes) (ls : List Bytes)
    → All IsLabelChar l
    → find_dot 0 (length pre + 1) (pre ++ b'.' ∷ text_of l ls)
      ≡ next_dot ls (length pre + 1 + length l)
find_dot_behind pre l ls h =
    let dot = pre ++ b'.' ∷ [] in
    let from = length pre + 1 in
    let e : length dot ≡ from = omega (arith, length-append pre (b'.' ∷ [])) in
    let at_label : find_dot 0 from (dot ++ text_of l ls) ≡ find_dot from from (text_of l ls) =
      ground (arith, e, find_dot_before dot (text_of l ls) 0 from) in
    ap (find_dot 0 from) (sym (append_assoc pre (b'.' ∷ []) (text_of l ls)))
    ∙ at_label
    ∙ find_dot-label l (dotted ls) from from h
    ∙ find_dot-dotted ls (from + length l) from (omega arith)

length-behind :
    (pre l : Bytes) (ls : List Bytes)
    → length (pre ++ b'.' ∷ text_of l ls) ≡ length pre + 1 + length l + length (dotted ls)
length-behind pre l ls =
    omega (arith, length-append pre (b'.' ∷ text_of l ls), length-append l (dotted ls))

-- The length that getLen gives for a label behind a dot.
pub get_len_behind :
    (pre l : Bytes) (ls : List Bytes)
    → 0 < length pre
    → IsLabel l
    → length (pre ++ b'.' ∷ text_of l ls) < 0x8000_0000_0000_0000
    → get_len (pre ++ b'.' ∷ text_of l ls) (length pre)
      ≡ (length l, next_dot ls (length pre + 1 + length l))
unfolding get_len
get_len_behind pre l [] p h q =
    let e : (length pre + 1) % 0x1_0000_0000_0000_0000 ≡ length pre + 1 =
      omega (arith, length-behind pre l []) in
    rw (e, find_dot_behind pre l [] h.chars) (ground (arith, length-behind pre l [], h.short))
get_len_behind pre l (m ∷ ls) p h q =
    let e : (length pre + 1) % 0x1_0000_0000_0000_0000 ≡ length pre + 1 =
      omega (arith, length-behind pre l (m ∷ ls)) in
    rw (e, find_dot_behind pre l (m ∷ ls) h.chars)
      (ground (arith, length-behind pre l (m ∷ ls), h.short))

-- The dot behind the first label.
find_dot_first :
    (l : Bytes) (ls : List Bytes) → IsLabel l → find_dot 0 1 (text_of l ls) ≡ next_dot ls (length l)
find_dot_first l ls h =
    let e : 0 + length l ≡ length l = omega arith in
    find_dot-label l (dotted ls) 0 1 h.chars
    ∙ ap (λ k. find_dot k 1 (dotted ls)) e
    ∙ find_dot-dotted ls (length l) 1 h.nonempty

-- The length that getLen gives for the first label: right before a dot, and one short without.
pub get_len_first :
    (l : Bytes) (ls : List Bytes)
    → IsLabel l
    → length (text_of l ls) < 0x8000_0000_0000_0000
    → get_len (text_of l ls) 0
      ≡ (elim ls [ [] ↦ length l - 1 | _ ↦ length l ], next_dot ls (length l))
unfolding get_len
get_len_first l [] h q =
    rw (find_dot_first l [] h) (ground (arith, append-nil l, h.short, h.nonempty))
get_len_first l (m ∷ ls) h q =
    rw (find_dot_first l (m ∷ ls) h)
      (ground (arith, length-append l (dotted (m ∷ ls)), h.short, h.nonempty))
