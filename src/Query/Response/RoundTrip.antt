-- ===== src/Query/Response/RoundTrip.antt =====
-- src/query.cpp: what resolve writes, as decode reads it.
use epoller.Prelude.{
  ℕ, ◌+◌, ◌/◌, ◌%◌, ◌^◌, ◌<◌, ◌≡◌, refl, ap, ◌∙◌, false, List, [], ◌∷◌, ◌++◌, append_assoc, Bytes,
  All, length, length-append, arith, none, some,
}
use epoller.Endian.{word16, push16}
use epoller.Query.Flags.{set_flag}
use epoller.Query.Name.{encode_name}
use epoller.Query.Name.Wire.{IsLabel, IsName, text_of, wire}
use epoller.Query.Name.Encode.{encode_name-text_of}
use epoller.Query.Name.Decode.{decode_name-wire}
use epoller.Query.Message.{decode_header, resolve, decode_questions}
use epoller.Query.Response.{decode}
use epoller.Query.Response.Fields.{decode_footer_lem}

-- The two bytes of a word, the high one first.
abbrev pub bytes16 : ℕ → Bytes
bytes16 w = w / 256 % 256 ∷ w % 256 ∷ []

-- The header of a message with one question: an identifier, the flag for a recursive query, and the
-- four counts.
abbrev pub question_header : ℕ → Bytes
question_header req_no = bytes16 req_no ++ 1 ∷ 0 ∷ 0 ∷ 1 ∷ 0 ∷ 0 ∷ 0 ∷ 0 ∷ 0 ∷ 0 ∷ []

-- resolve writes the header with one question, the name, and the type and class asked for.
pub resolve_layout :
    (req_no : ℕ) (name : Bytes) (q_type : ℕ)
    → resolve req_no name q_type
      ≡ encode_name name (question_header req_no) ++ bytes16 q_type ++ 0 ∷ 1 ∷ []
unfolding resolve push16 set_flag
resolve_layout req_no name q_type = refl

-- The name and the footer of a question are read by one round of decode's loop over the questions.
pub decode_questions_one :
    (before rest l : Bytes) (ls : List Bytes) (name : Bytes) (a b c d : ℕ)
    → IsLabel l
    → All IsLabel ls
    → decode_questions (before ++ (wire l ls ++ a ∷ b ∷ c ∷ d ∷ rest)) 1 name (length before)
      ≡ some (text_of l ls, length before + length (wire l ls) + 4)
unfolding decode_questions
decode_questions_one before rest l ls name a b c d h hs =
    let footer = a ∷ b ∷ c ∷ d ∷ rest in
    ground (
      arith,
      decode_name-wire before footer l ls h hs,
      append_assoc before (wire l ls) footer,
      length-append before (wire l ls),
      decode_footer_lem (before ++ wire l ls) rest a b c d,
    )

decode_query :
    (now : ℕ → ℕ) (req_no a b : ℕ) (l : Bytes) (ls : List Bytes)
    → req_no < 2 ^ 16
    → IsLabel l
    → All IsLabel ls
    → decode now (question_header req_no ++ (wire l ls ++ a ∷ b ∷ 0 ∷ 1 ∷ []))
      ≡ some (record {
        valid = false;
        req_no = req_no;
        name = text_of l ls;
        addr = [];
        ttl = none;
        time_stamp = now 0;
      })
unfolding decode decode_header word16
decode_query now req_no a b l ls p h hs =
    rw (decode_questions_one (question_header req_no) [] l ls [] a b 0 1 h hs) (ground arith)

-- decode reads back the identifier and the name of every query that resolve writes for a name of two
-- labels or more, with no answer in it.
pub decode-resolve :
    (now : ℕ → ℕ) (req_no q_type : ℕ) (l m : Bytes) (ls : List Bytes)
    → req_no < 2 ^ 16
    → IsName l (m ∷ ls)
    → decode now (resolve req_no (text_of l (m ∷ ls)) q_type)
      ≡ some (record {
        valid = false;
        req_no = req_no;
        name = text_of l (m ∷ ls);
        addr = [];
        ttl = none;
        time_stamp = now 0;
      })
decode-resolve now req_no q_type l m ls p h =
    let layout : resolve req_no (text_of l (m ∷ ls)) q_type
        ≡ question_header req_no ++ (wire l (m ∷ ls) ++ (bytes16 q_type ++ 0 ∷ 1 ∷ [])) =
      rw
        (
          resolve_layout req_no (text_of l (m ∷ ls)) q_type,
          encode_name-text_of l m ls (question_header req_no) h,
        )
        (simp append_assoc) in
    ap (decode now) layout
    ∙ decode_query now req_no (q_type / 256 % 256) (q_type % 256) l (m ∷ ls) p h.first h.others
