-- ===== src/Query/Response.antt =====
-- src/query.cpp: decode. The clock is read once at the start and once for each answer: `now i` is the
-- reading when `i` answers have been begun.
pub mod Fields
pub mod Cursor
pub mod Address
pub mod RoundTrip
use epoller.Prelude.{
  ℕ, zero, suc, ◌+◌, ◌*◌, Bool, true, false, ◌&&◌, List, [], ◌∷◌, ◌++◌, Bytes, ◌==◌, if◌then◌else◌,
  Option, none, some, get_elem?, ◌>>=◌,
}
use epoller.IpAddr.{IpAddr, set_ipv4, set}
use epoller.Query.Name.{decode_name}
use epoller.Query.Message.{
  host, one_sec_in_ns, qtype_a, qtype_aaaa, internet, Answer, Qanswer, sizeof_header, decode_answer,
  decode_header, decode_questions,
}

-- The loop that copies `n` bytes from `cur_pos` on.
unfoldable pub copy_bytes : Bytes → ℕ → ℕ → Option Bytes
copy_bytes data' zero cur_pos = some []
copy_bytes data' (suc n) cur_pos = do
  b ← get_elem? data' cur_pos
  bs ← copy_bytes data' n (cur_pos + 1)
  some (b ∷ bs)

abbrev pub is_ipv4_answer : Answer → Bool
is_ipv4_answer answer = answer.rdlength == 4 && answer.qtype == qtype_a

abbrev pub is_ipv6_answer : Answer → Bool
is_ipv6_answer answer = answer.rdlength == 16 && answer.qtype == qtype_aaaa

abbrev pub add_addr : Qanswer → IpAddr → Qanswer
add_addr reply addr = record reply { addr = reply.addr ++ addr ∷ []; valid = true }

-- The branches of decode on one answer: the reply, and the position that they leave.
unfoldable pub add_answer : Bytes → Answer → ℕ → Qanswer → Option (Qanswer × ℕ)
add_answer data' answer cur_pos reply =
    if answer.qclass == internet
    then (if is_ipv4_answer answer
        then (do
          s0 ← get_elem? data' cur_pos
          s1 ← get_elem? data' (cur_pos + 1)
          s2 ← get_elem? data' (cur_pos + 2)
          s3 ← get_elem? data' (cur_pos + 3)
          some (add_addr reply (set_ipv4 host s0 s1 s2 s3), cur_pos + 4))
        else if is_ipv6_answer answer
        then (do
          net_order ← copy_bytes data' 16 cur_pos
          some (add_addr reply (set host net_order), cur_pos + 16))
        else some (reply, cur_pos))
    else some (reply, cur_pos)

-- One round of the loop over the answers.
unfoldable pub decode_record : Bytes → ℕ → ℕ → Qanswer → Option (Qanswer × ℕ)
decode_record data' now cur_pos reply = do
  (name, behind_name) ← decode_name data' cur_pos
  (answer, behind_answer) ← decode_answer data' behind_name
  let timed : Qanswer = record reply { ttl = some (answer.ttl * one_sec_in_ns); time_stamp = now }
  (reply', behind_addr) ← add_answer data' answer behind_answer timed
  some (reply', behind_addr + answer.rdlength)

unfoldable pub decode_answers : Bytes → (ℕ → ℕ) → ℕ → ℕ → ℕ → Qanswer → Option Qanswer
decode_answers data' now zero begun cur_pos reply = some reply
decode_answers data' now (suc i) begun cur_pos reply = do
  (reply', cur_pos') ← decode_record data' (now (begun + 1)) cur_pos reply
  decode_answers data' now i (begun + 1) cur_pos' reply'

unfoldable pub decode : (ℕ → ℕ) → Bytes → Option Qanswer
unfolding decode_answers
decode now data' =
    let header = decode_header data' in
    do
      (name, cur_pos) ← decode_questions data' header.qdcount [] sizeof_header
      decode_answers data' now header.ancount 0 cur_pos (record {
        valid = false;
        req_no = header.id;
        name = name;
        addr = [];
        ttl = none;
        time_stamp = now 0;
      })
