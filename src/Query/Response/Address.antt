-- ===== src/Query/Response/Address.antt =====
-- src/query.cpp: responses with one IPv4 address.
use epoller.Prelude.{
  ℕ, ◌+◌, ◌*◌, ◌<◌, ◌≡◌, ap, sym, ◌∙◌, true, false, List, [], ◌∷◌, ◌++◌, append_assoc, Bytes, All,
  length, length-append, arith, none, some, get_elem?-append,
}
use mathlib.Core.Path.{ap₂}
use epoller.Endian.{word16}
use epoller.IpAddr.{set_ipv4}
use epoller.Query.Name.Wire.{IsLabel, text_of, wire}
use epoller.Query.Message.{host, one_sec_in_ns, Qanswer, decode_header}
use epoller.Query.Response.Cursor.{RawAnswer, answer_bytes, answer_of, timed, decode_record_lem}
use epoller.Query.Response.RoundTrip.{decode_questions_one}
use epoller.Query.Response.{add_addr, add_answer, decode_record, decode}

-- An answer of type A and class Internet with four bytes of data.
abbrev pub raw_ipv4 : ℕ → ℕ → ℕ → ℕ → ℕ → RawAnswer
raw_ipv4 low l0 l1 l2 l3 = record {
  low = low;
  t0 = 0;
  t1 = 1;
  c0 = 0;
  c1 = 1;
  l0 = l0;
  l1 = l1;
  l2 = l2;
  l3 = l3;
  r0 = 0;
  r1 = 4;
}

decode_record_ipv4 :
    (before rest : Bytes) (low l0 l1 l2 l3 s0 s1 s2 s3 now : ℕ) (reply : Qanswer)
    → 0 < low
    → let raw = raw_ipv4 low l0 l1 l2 l3 in
      decode_record
        (before ++ answer_bytes raw (s0 ∷ s1 ∷ s2 ∷ s3 ∷ rest))
        now
        (length before)
        reply
      ≡ some (
        add_addr (timed (answer_of raw) now reply) (set_ipv4 host s0 s1 s2 s3),
        length before + 20,
      )
unfolding add_answer
decode_record_ipv4 before rest low l0 l1 l2 l3 s0 s1 s2 s3 now reply h =
    let raw = raw_ipv4 low l0 l1 l2 l3 in
    let bytes = answer_bytes raw (s0 ∷ s1 ∷ s2 ∷ s3 ∷ rest) in
    ground (
      arith,
      decode_record_lem before (s0 ∷ s1 ∷ s2 ∷ s3 ∷ rest) raw now reply h,
      get_elem?-append before bytes 12,
      get_elem?-append before bytes 13,
      get_elem?-append before bytes 14,
      get_elem?-append before bytes 15,
    )

-- The header of a response with one question and one answer.
abbrev pub response_header : ℕ → ℕ → ℕ → ℕ → Bytes
response_header i0 i1 f0 f1 = i0 ∷ i1 ∷ f0 ∷ f1 ∷ 0 ∷ 1 ∷ 0 ∷ 1 ∷ 0 ∷ 0 ∷ 0 ∷ 0 ∷ []

-- A whole response: header, question, one IPv4 answer, and what follows.
abbrev pub response_ipv4 : Bytes → Bytes → List Bytes → Bytes → RawAnswer → Bytes → Bytes
response_ipv4 header l ls question raw data' =
    header ++ (wire l ls ++ (question ++ answer_bytes raw data'))

-- decode takes identifier, name, address and time to live from every response with one IPv4 answer
-- whose name is compressed; the time stamp is the second reading of the clock.
pub decode-response_ipv4 :
    (now : ℕ → ℕ) (i0 i1 f0 f1 q0 q1 q2 q3 low l0 l1 l2 l3 s0 s1 s2 s3 : ℕ) (l : Bytes)
    (ls : List Bytes) (rest : Bytes)
    → IsLabel l
    → All IsLabel ls
    → 0 < low
    → decode now (
        response_ipv4
          (response_header i0 i1 f0 f1)
          l
          ls
          (q0 ∷ q1 ∷ q2 ∷ q3 ∷ [])
          (raw_ipv4 low l0 l1 l2 l3)
          (s0 ∷ s1 ∷ s2 ∷ s3 ∷ rest))
      ≡ some (record {
        valid = true;
        req_no = 256 * i0 + i1;
        name = text_of l ls;
        addr = set_ipv4 host s0 s1 s2 s3 ∷ [];
        ttl = some ((0x1000000 * l0 + 0x10000 * l1 + 0x100 * l2 + l3) * one_sec_in_ns);
        time_stamp = now 1;
      })
unfolding decode decode_header word16
decode-response_ipv4 now i0 i1 f0 f1 q0 q1 q2 q3 low l0 l1 l2 l3 s0 s1 s2 s3 l ls rest h hs hl =
    let header = response_header i0 i1 f0 f1 in
    let question = q0 ∷ q1 ∷ q2 ∷ q3 ∷ [] in
    let answer = answer_bytes (raw_ipv4 low l0 l1 l2 l3) (s0 ∷ s1 ∷ s2 ∷ s3 ∷ rest) in
    let before = header ++ (wire l ls ++ question) in
    let start : Qanswer = record {
      valid = false;
      req_no = 256 * i0 + i1;
      name = text_of l ls;
      addr = [];
      ttl = none;
      time_stamp = now 0;
    } in
    let split : header ++ (wire l ls ++ (question ++ answer)) ≡ before ++ answer =
      ap (◌++◌ header) (sym (append_assoc (wire l ls) question answer)) in
    let end : length header + length (wire l ls) + 4 ≡ length before =
      omega (arith, length-append (wire l ls) question) in
    let id : i1 + 256 * i0 ≡ 256 * i0 + i1 = omega arith in
    rw (
      decode_questions_one header answer l ls [] q0 q1 q2 q3 h hs,
      id,
      ap₂ (λ b p. decode_record b (now 1) p start) split end
          ∙ decode_record_ipv4 before rest low l0 l1 l2 l3 s0 s1 s2 s3 (now 1) start hl,
    )
