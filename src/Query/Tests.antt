-- ===== src/Query/Tests.antt =====
-- Runs of src/query.cpp, and the theorems at them.
use epoller.Prelude.{
  ℕ, ◌+◌, ◌*◌, ◌≡◌, refl, true, false, [], ◌∷◌, ◌++◌, Bytes, arith, some, none, if◌then◌else◌,
}
use epoller.Endian.{word16, word32}
use epoller.IpAddr.{set_ipv4}
use epoller.Query.Name.{encode_name, decode_name}
use epoller.Query.Name.Wire.{IsLabel, IsName}
use epoller.Query.Name.Encode.{encode_name_single}
use epoller.Query.Message.{host, one_sec_in_ns, resolve, Qanswer, qtype_a, decode_answer}
use epoller.Query.Response.{decode, decode_record, add_answer}
use epoller.Query.Response.RoundTrip.{decode-resolve}
use epoller.Query.Response.Cursor.{answer_bytes, answer_of, has_address, decode_record_position}
use epoller.Query.Response.Address.{raw_ipv4}

abbrev example_label : Bytes
example_label = b'e' ∷ b'x' ∷ b'a' ∷ b'm' ∷ b'p' ∷ b'l' ∷ b'e' ∷ []

abbrev com_label : Bytes
com_label = b'c' ∷ b'o' ∷ b'm' ∷ []

abbrev example_com : Bytes
example_com = b'e' ∷ b'x' ∷ b'a' ∷ b'm' ∷ b'p' ∷ b'l' ∷ b'e' ∷ b'.' ∷ b'c' ∷ b'o' ∷ b'm' ∷ []

example_label-IsLabel : IsLabel example_label
example_label-IsLabel = record { chars = ground arith; nonempty = omega arith; short = omega arith }

com_label-IsLabel : IsLabel com_label
com_label-IsLabel = record { chars = ground arith; nonempty = omega arith; short = omega arith }

example_com-IsName : IsName example_label (com_label ∷ [])
example_com-IsName = record {
  first = example_label-IsLabel;
  others = (com_label-IsLabel, tt);
  counts = omega arith;
}

encode_name_single_example : encode_name com_label [] ≡ 2 ∷ (com_label ++ 0 ∷ [])
encode_name_single_example = encode_name_single com_label [] com_label-IsLabel

abbrev clock : ℕ → ℕ
clock k = 100 + k

decode-resolve_example :
    decode clock (resolve 513 example_com qtype_a)
    ≡ some (record {
      valid = false;
      req_no = 513;
      name = example_com;
      addr = [];
      ttl = none;
      time_stamp = 100;
    })
decode-resolve_example =
    decode-resolve clock 513 qtype_a example_label com_label [] (omega arith) example_com-IsName

abbrev no_reply : Qanswer
no_reply = record { valid = false; req_no = 1; name = []; addr = []; ttl = none; time_stamp = 0 }

abbrev one_reply : Qanswer
one_reply = record no_reply {
  valid = true;
  addr = set_ipv4 host 93 184 216 34 ∷ [];
  ttl = some (60 * one_sec_in_ns);
  time_stamp = 5;
}

decode_record_run :
    decode_record
      (7 ∷ 7 ∷ answer_bytes (raw_ipv4 12 0 0 0 60) (93 ∷ 184 ∷ 216 ∷ 34 ∷ []))
      5
      2
      no_reply
    ≡ some (one_reply, 22)
unfolding decode_record decode_name decode_answer add_answer word16 word32
decode_record_run = refl

decode_record_position_example :
    22 ≡ 2 + 12 + 4 + (if has_address (answer_of (raw_ipv4 12 0 0 0 60)) then 4 else 0)
decode_record_position_example =
    decode_record_position (7 ∷ 7 ∷ []) (93 ∷ 184 ∷ 216 ∷ 34 ∷ []) (raw_ipv4 12 0 0 0 60) 5 no_reply
      one_reply 22 (omega arith) decode_record_run
