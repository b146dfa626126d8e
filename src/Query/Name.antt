-- ===== src/Query/Name.antt =====
-- src/query.cpp: getLen, encodeName and decodeName.
pub mod Wire
pub mod Lengths
pub mod Encode
pub mod Decode
use Prim.Native.Nat.{bit_and}
use epoller.Prelude.{
  ℕ, zero, suc, ◌+◌, ◌-◌, ◌%◌, Bool, true, false, ◌&&◌, List, [], ◌∷◌, ◌++◌, Bytes, ◌==◌, leb,
  if◌then◌else◌, Option, none, some, length, get_elem?, drop, ◌>>=◌, add_size, sub_size, size_mod,
}

abbrev pub max_domain_len : ℕ
max_domain_len = 64

-- std::string::npos.
abbrev pub npos : ℕ
npos = 0xffff_ffff_ffff_ffff

-- name.find('.', from), at index `i` of the name.
unfoldable pub find_dot : ℕ → ℕ → Bytes → ℕ
find_dot i from [] = npos
find_dot i from (c ∷ cs) = if leb from i && c == b'.' then i else find_dot (i + 1) from cs

-- getLen: the length of the label behind `prev_dot_pos`, and the new position.
unfoldable pub get_len : Bytes → ℕ → ℕ × ℕ
unfolding find_dot
get_len name prev_dot_pos =
    let dot_pos = find_dot 0 (add_size prev_dot_pos 1) name in
    let len =
      if dot_pos == npos
      then sub_size (sub_size (length name) prev_dot_pos) 1
      else if prev_dot_pos == 0
      then sub_size dot_pos prev_dot_pos
      else sub_size (sub_size dot_pos prev_dot_pos) 1 in
    (if leb max_domain_len len then max_domain_len - 1 else len, dot_pos)

-- The variables of encodeName.
pub record Encoder : Type 0 where
  pub prev_dot_pos : ℕ
  pub len : ℕ
  pub query : Bytes

-- The body of the loop of encodeName.
unfoldable pub encode_char : Bytes → Encoder → ℕ → Encoder
encode_char name e c =
    if c == b'.'
    then (let (len, dot_pos) = get_len name e.prev_dot_pos in
        record { prev_dot_pos = dot_pos; len = len; query = e.query ++ (len % 256) ∷ [] })
    else if e.len == npos
    then e
    else record e { len = if e.len == 0 then npos else e.len - 1; query = e.query ++ c ∷ [] }

unfoldable pub encode_chars : Bytes → Encoder → Bytes → Encoder
unfolding encode_char
encode_chars name e [] = e
encode_chars name e (c ∷ cs) = encode_chars name (encode_char name e c) cs

unfoldable pub encode_name : Bytes → Bytes → Bytes
unfolding encode_chars
encode_name name query =
    let (len, dot_pos) = get_len name 0 in
    let start : Encoder = record {
      prev_dot_pos = dot_pos;
      len = len;
      query = query ++ (len % 256) ∷ [];
    } in
    (encode_chars name start name).query ++ 0 ∷ []

-- (len & 0xC0) == 0xC0
unfoldable pub is_pointer : ℕ → Bool
is_pointer len = bit_and len 0xC0 == 0xC0

-- The loop of decodeName over the response from `cur_pos` on, and the increment behind it.
unfoldable pub decode_chars : Bytes → ℕ → ℕ → Bytes → Option (Bytes × ℕ)
unfolding is_pointer
decode_chars [] cur_pos len name = none
decode_chars (b ∷ bs) cur_pos len name =
    if b == 0
    then some (name, cur_pos + 1)
    else if is_pointer len
    then some (name, cur_pos + 1)
    else decode_chars bs (cur_pos + 1) (if len == 0 then b else len - 1)
        (name ++ (if len == 0 then b'.' else b) ∷ [])

-- decodeName: the name, and the position behind it.
unfoldable pub decode_name : Bytes → ℕ → Option (Bytes × ℕ)
unfolding decode_chars
decode_name response cur_pos = do
  len ← get_elem? response cur_pos
  decode_chars (drop (cur_pos + 1) response) (cur_pos + 1) len []
