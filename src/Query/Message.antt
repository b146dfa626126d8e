-- ===== src/Query/Message.antt =====
-- src/query.cpp: the parts of a message, resolve and decode.
use epoller.Prelude.{ℕ, zero, suc, ◌+◌, Bool, List, [], ◌∷◌, Bytes, Option, some, get_elem?, ◌>>=◌}
use epoller.Endian.{Host, little, word16, word32, push16}
use epoller.IpAddr.{IpAddr}
use epoller.Query.Flags.{ReqFlags, set_flag, qr, opcode, aa, tc, rd, ra}
use epoller.Query.Name.{encode_name, decode_name}

-- The byte order of the hosts that the program is built for.
abbrev pub host : Host
host = little

abbrev pub one_sec_in_ns : ℕ
one_sec_in_ns = 1_000_000_000

-- enum struct Qtype: the record types that the code names.
abbrev pub qtype_a : ℕ
qtype_a = 1

abbrev pub qtype_aaaa : ℕ
qtype_aaaa = 28

-- Qclass::Internet
abbrev pub internet : ℕ
internet = 1

pub record Header : Type 0 where
  pub id : ℕ
  pub req_flags : ReqFlags
  pub qdcount : ℕ
  pub ancount : ℕ
  pub nscount : ℕ
  pub arcount : ℕ

pub record Footer : Type 0 where
  pub qtype : ℕ
  pub qclass : ℕ

pub record Answer : Type 0 where
  pub qtype : ℕ
  pub qclass : ℕ
  pub ttl : ℕ
  pub rdlength : ℕ

-- struct Qanswer. `ttl` is not initialised by the code: `none` until a record sets it.
pub record Qanswer : Type 0 where
  pub valid : Bool
  pub req_no : ℕ
  pub name : Bytes
  pub addr : List IpAddr
  pub ttl : Option ℕ
  pub time_stamp : ℕ

-- networkEndian of the two or the four bytes at `pos`.
unfoldable pub word16_at : Bytes → ℕ → Option ℕ
word16_at response pos = do
  b0 ← get_elem? response pos
  b1 ← get_elem? response (pos + 1)
  some (word16 host b0 b1)

unfoldable pub word32_at : Bytes → ℕ → Option ℕ
word32_at response pos = do
  b0 ← get_elem? response pos
  b1 ← get_elem? response (pos + 1)
  b2 ← get_elem? response (pos + 2)
  b3 ← get_elem? response (pos + 3)
  some (word32 host b0 b1 b2 b3)

unfoldable pub decode_footer : Bytes → ℕ → Option (Footer × ℕ)
unfolding word16_at
decode_footer response cur_pos = do
  qtype ← word16_at response cur_pos
  qclass ← word16_at response (cur_pos + 2)
  some (record { qtype = qtype; qclass = qclass }, cur_pos + 4)

unfoldable pub decode_answer : Bytes → ℕ → Option (Answer × ℕ)
unfolding word16_at word32_at
decode_answer response cur_pos = do
  qtype ← word16_at response cur_pos
  qclass ← word16_at response (cur_pos + 2)
  ttl ← word32_at response (cur_pos + 4)
  rdlength ← word16_at response (cur_pos + 8)
  some (record { qtype = qtype; qclass = qclass; ttl = ttl; rdlength = rdlength }, cur_pos + 10)

-- union QueryHeader as the words of the header.
abbrev pub header_words : Header → List ℕ
header_words h = h.id ∷ h.req_flags.d ∷ h.qdcount ∷ h.ancount ∷ h.nscount ∷ h.arcount ∷ []

abbrev pub sizeof_header : ℕ
sizeof_header = 12

abbrev pub empty_header : Header
empty_header = record {
  id = 0;
  req_flags = record { d = 0 };
  qdcount = 0;
  ancount = 0;
  nscount = 0;
  arcount = 0;
}

-- decodeHeader: the six words, or zeros where the message is shorter than a header.
unfoldable pub decode_header : Bytes → Header
decode_header (a0 ∷ a1 ∷ b0 ∷ b1 ∷ c0 ∷ c1 ∷ d0 ∷ d1 ∷ e0 ∷ e1 ∷ f0 ∷ f1 ∷ rest) = record {
  id = word16 host a0 a1;
  req_flags = record { d = word16 host b0 b1 };
  qdcount = word16 host c0 c1;
  ancount = word16 host d0 d1;
  nscount = word16 host e0 e1;
  arcount = word16 host f0 f1;
}
decode_header _ = empty_header

-- The loops of resolve over the words of the header and of the footer.
unfoldable pub push_words : List ℕ → Bytes → Bytes
push_words [] query = query
push_words (w ∷ ws) query = push_words ws (push16 host w query)

-- The flags that resolve sets, in its order.
unfoldable pub query_flags : ReqFlags
query_flags = set_flag aa 0 (
    set_flag ra 0
      (set_flag rd 1 (set_flag tc 0 (set_flag opcode 0 (set_flag qr 0 (record { d = 0 }))))))

unfoldable pub resolve : ℕ → Bytes → ℕ → Bytes
unfolding push_words query_flags
resolve req_no name q_type =
    let header : Header = record empty_header {
      id = req_no;
      req_flags = query_flags;
      qdcount = 1;
    } in
    let query = push_words (header_words header) [] in
    push_words (q_type ∷ internet ∷ []) (encode_name name query)

-- The loop of decode over the questions: the last name, and the position behind them.
unfoldable pub decode_questions : Bytes → ℕ → Bytes → ℕ → Option (Bytes × ℕ)
decode_questions response zero name cur_pos = some (name, cur_pos)
decode_questions response (suc i) name cur_pos = do
  (name', behind_name) ← decode_name response cur_pos
  (footer, behind_footer) ← decode_footer response behind_name
  decode_questions response i name' behind_footer
