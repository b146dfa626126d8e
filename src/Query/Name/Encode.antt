-- ===== src/Query/Name/Encode.antt =====
-- src/query.cpp: what encodeName writes.
use epoller.Prelude.{
  ℕ, ◌+◌, ◌-◌, ◌%◌, ◌≤◌, ◌<◌, ◌≡◌, refl, ap, sym, ◌∙◌, List, [], ◌∷◌, ◌++◌, append-nil,
  append_assoc, Bytes, All, length, length-append, arith,
}
use epoller.Query.Name.{npos, get_len, Encoder, encode_chars, encode_name}
use epoller.Query.Name.Wire.{IsLabelChar, IsLabel, IsName, dotted, text_of, counted, wire}
use epoller.Query.Name.Lengths.{next_dot, get_len_behind, get_len_first}

encode_chars-label :
    (l rest name : Bytes) (e : Encoder)
    → All IsLabelChar l
    → length l ≤ e.len
    → e.len < npos
    → encode_chars name e (l ++ rest)
      ≡ encode_chars name (record e { len = e.len - length l; query = e.query ++ l }) rest
unfolding encode_chars
encode_chars-label [] rest name e h p q = ground (arith, append-nil e.query)
encode_chars-label (c ∷ l) rest name e h p q = ground (
  arith,
  h.0,
  append_assoc e.query (c ∷ []) l,
  encode_chars-label l rest name (record e { len = e.len - 1; query = e.query ++ c ∷ [] }) h.1,
)

-- The characters of one label are written whole, also where the counter is one short of them.
encode_chars_last :
    (l name : Bytes) (e : Encoder)
    → All IsLabelChar l
    → length l ≤ e.len + 1
    → e.len < npos
    → (encode_chars name e l).query ≡ e.query ++ l
unfolding encode_chars
encode_chars_last [] name e h p q = sym (append-nil e.query)
encode_chars_last (c ∷ []) name e h p q = ground (arith, h.0)
encode_chars_last (c ∷ d ∷ l) name e h p q = ground (
  arith,
  h.0,
  append_assoc e.query (c ∷ []) (d ∷ l),
  encode_chars_last (d ∷ l) name (record e { len = e.len - 1; query = e.query ++ c ∷ [] }) h.1,
)

-- The encoder behind a dot for which getLen gives `len` and `dot_pos`.
abbrev behind_dot : Encoder → ℕ × ℕ → Encoder
behind_dot e (len, dot_pos) = record {
  prev_dot_pos = dot_pos;
  len = len;
  query = e.query ++ (len % 256) ∷ [];
}

encode_chars_dot :
    (name cs : Bytes) (e : Encoder)
    → encode_chars name e (b'.' ∷ cs)
      ≡ encode_chars name (behind_dot e (get_len name e.prev_dot_pos)) cs
unfolding encode_chars
encode_chars_dot name cs e = refl

-- What is written for the labels behind a dot.
encode_chars-dotted :
    (ls : List Bytes) (pre name : Bytes) (e : Encoder)
    → All IsLabel ls
    → name ≡ pre ++ dotted ls
    → 0 < length pre
    → length name < 0x8000_0000_0000_0000
    → e.prev_dot_pos ≡ next_dot ls (length pre)
    → (encode_chars name e (dotted ls)).query ≡ e.query ++ counted ls
unfolding encode_chars
encode_chars-dotted [] pre name e h n p q d = sym (append-nil e.query)
encode_chars-dotted (l ∷ ls) pre name e h n p q d =
    let q' : length (pre ++ dotted (l ∷ ls)) < 0x8000_0000_0000_0000 = rw (← n) q in
    let len : get_len name e.prev_dot_pos ≡ (length l, next_dot ls (length pre + 1 + length l)) =
      rw (n, d) (get_len_behind pre l ls p h.0 q') in
    let start = behind_dot e (length l, next_dot ls (length pre + 1 + length l)) in
    let small : length l % 256 ≡ length l = omega (arith, h.0.short) in
    let pre' = pre ++ b'.' ∷ l in
    let end : length pre' ≡ length pre + 1 + length l =
      omega (arith, length-append pre (b'.' ∷ l)) in
    ap (λ (x : Encoder). x.query)
      (encode_chars_dot name (l ++ dotted ls) e
        ∙ ap (λ g. encode_chars name (behind_dot e g) (l ++ dotted ls)) len
        ∙ encode_chars-label l (dotted ls) name start h.0.chars (omega arith)
            (omega (arith, h.0.short)))
    ∙ encode_chars-dotted ls pre' name
        (record start { len = length l - length l; query = start.query ++ l }) h.1
        (n ∙ sym (append_assoc pre (b'.' ∷ l) (dotted ls))) (omega arith) q (rw end)
    ∙ ground (
      arith,
      small,
      append_assoc (e.query ++ length l ∷ []) l (counted ls),
      append_assoc e.query (length l ∷ []) (l ++ counted ls),
    )

-- encodeName appends the form of a message of every name of two labels or more.
pub encode_name-text_of :
    (l m : Bytes) (ls : List Bytes) (query : Bytes)
    → IsName l (m ∷ ls)
    → encode_name (text_of l (m ∷ ls)) query ≡ query ++ wire l (m ∷ ls)
unfolding encode_name
encode_name-text_of l m ls query h =
    let name = text_of l (m ∷ ls) in
    let start : Encoder = record {
      prev_dot_pos = length l;
      len = length l;
      query = query ++ (length l % 256) ∷ [];
    } in
    let small : length l % 256 ≡ length l = omega (arith, h.first.short) in
    rw (get_len_first l (m ∷ ls) h.first h.counts) (
      ap (λ (x : Encoder). x.query ++ 0 ∷ [])
        (encode_chars-label l (dotted (m ∷ ls)) name start h.first.chars (omega arith)
          (omega (arith, h.first.short)))
      ∙ ap (λ q. q ++ 0 ∷ [])
          (encode_chars-dotted (m ∷ ls) l name
            (record start { len = length l - length l; query = start.query ++ l }) h.others refl
            h.first.nonempty h.counts refl)
      ∙ rw small (simp append_assoc))

-- For a name of one label the length that encodeName writes is one less than that of the label,
-- which follows whole.
pub encode_name_single :
    (l query : Bytes) → IsLabel l → encode_name l query ≡ query ++ (length l - 1) ∷ (l ++ 0 ∷ [])
unfolding encode_name
encode_name_single l query h =
    let len : get_len l 0 ≡ (length l - 1, npos) =
      ap (λ t. get_len t 0) (sym (append-nil l))
      ∙ get_len_first l [] h (omega (arith, h.short, ap (λ t. length t) (append-nil l))) in
    let start : Encoder = record {
      prev_dot_pos = npos;
      len = length l - 1;
      query = query ++ ((length l - 1) % 256) ∷ [];
    } in
    let small : (length l - 1) % 256 ≡ length l - 1 = omega (arith, h.short) in
    rw len (
      ap (λ q. q ++ 0 ∷ [])
        (encode_chars_last l l start h.chars (omega arith) (omega (arith, h.short)))
      ∙ rw small (simp append_assoc))
