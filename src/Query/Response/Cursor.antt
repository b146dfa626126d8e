-- ===== src/Query/Response/Cursor.antt =====
-- src/query.cpp: one round of decode's loop over the answers.
use epoller.Prelude.{
  ℕ, ◌+◌, ◌-◌, ◌*◌, ◌<◌, ◌≡◌, Bool, [], ◌∷◌, ◌++◌, append_assoc, Bytes, ◌==◌, if◌then◌else◌, length,
  length-append, arith, some, get_elem?-append, drop-append, ◌>>=◌, ◌||◌, ◌&&◌,
}
use epoller.Query.Name.{decode_name}
use epoller.Query.Message.{one_sec_in_ns, internet, Answer, Qanswer}
use epoller.Query.Response.Fields.{decode_answer_lem}
use epoller.Query.Response.{is_ipv4_answer, is_ipv6_answer, add_answer, decode_record}

-- A compressed name: the first byte of a pointer and the low byte of its target.
pub decode_name_pointer :
    (before rest : Bytes) (low : ℕ)
    → 0 < low
    → decode_name (before ++ 0xC0 ∷ low ∷ rest) (length before) ≡ some ([], length before + 2)
unfolding decode_name
decode_name_pointer before rest low h =
    ground (
      arith,
      get_elem?-append before (0xC0 ∷ low ∷ rest) 0,
      drop-append before (0xC0 ∷ low ∷ rest) 1,
    )

-- Is the answer one of which decode takes the address?
abbrev pub has_address : Answer → Bool
has_address a = a.qclass == internet && (is_ipv4_answer a || is_ipv6_answer a)

-- The position behind what add_answer reads: behind the address, if there is one.
pub add_answer_position :
    (bytes : Bytes) (a : Answer) (cur_pos : ℕ) (reply r : Qanswer) (p : ℕ)
    → add_answer bytes a cur_pos reply ≡ some (r, p)
    → p ≡ cur_pos + (if has_address a then a.rdlength else 0)
unfolding add_answer
add_answer_position bytes a cur_pos reply r p h = ground arith

-- The bytes of an answer up to its data: the low byte of the target of its compressed name, type,
-- class, time to live and length.
pub record RawAnswer : Type 0 where
  pub low : ℕ
  pub t0 : ℕ
  pub t1 : ℕ
  pub c0 : ℕ
  pub c1 : ℕ
  pub l0 : ℕ
  pub l1 : ℕ
  pub l2 : ℕ
  pub l3 : ℕ
  pub r0 : ℕ
  pub r1 : ℕ

abbrev pub fixed_part : RawAnswer → Bytes → Bytes
fixed_part r rest = r.t0 ∷ r.t1 ∷ r.c0 ∷ r.c1 ∷ r.l0 ∷ r.l1 ∷ r.l2 ∷ r.l3 ∷ r.r0 ∷ r.r1 ∷ rest

abbrev pub answer_bytes : RawAnswer → Bytes → Bytes
answer_bytes r rest = 0xC0 ∷ r.low ∷ fixed_part r rest

-- The answer that those bytes stand for.
abbrev pub answer_of : RawAnswer → Answer
answer_of r = record {
  qtype = 256 * r.t0 + r.t1;
  qclass = 256 * r.c0 + r.c1;
  ttl = 0x1000000 * r.l0 + 0x10000 * r.l1 + 0x100 * r.l2 + r.l3;
  rdlength = 256 * r.r0 + r.r1;
}

abbrev pub timed : Answer → ℕ → Qanswer → Qanswer
timed a now reply = record reply { ttl = some (a.ttl * one_sec_in_ns); time_stamp = now }

-- One round of the loop, up to the branches on the answer.
pub decode_record_lem :
    (before rest : Bytes) (r : RawAnswer) (now : ℕ) (reply : Qanswer)
    → 0 < r.low
    → decode_record (before ++ answer_bytes r rest) now (length before) reply ≡ (
        add_answer
          (before ++ answer_bytes r rest)
          (answer_of r)
          (length before + 12)
          (timed (answer_of r) now reply)
        >>= λ x. some (x.0, x.1 + (answer_of r).rdlength))
unfolding decode_record
decode_record_lem before rest r now reply h =
    let name = 0xC0 ∷ r.low ∷ [] in
    ground (
      arith,
      decode_name_pointer before (fixed_part r rest) r.low h,
      append_assoc before name (fixed_part r rest),
      length-append before name,
      decode_answer_lem (before ++ name) rest r.t0 r.t1 r.c0 r.c1 r.l0 r.l1 r.l2 r.l3 r.r0 r.r1,
    )

-- For an answer with a compressed name, a round that is not cut short goes on behind the answer's data, if
-- it took no address from it, and otherwise as far again behind the data as the data is long.
pub decode_record_position :
    (before rest : Bytes) (raw : RawAnswer) (now : ℕ) (reply r : Qanswer) (p : ℕ)
    → 0 < raw.low
    → decode_record (before ++ answer_bytes raw rest) now (length before) reply ≡ some (r, p)
    → let a = answer_of raw in
      p ≡ length before + 12 + a.rdlength + (if has_address a then a.rdlength else 0)
decode_record_position before rest raw now reply r p h e =
    let a = answer_of raw in
    let bytes = before ++ answer_bytes raw rest in
    ground (
      arith,
      decode_record_lem before rest raw now reply h,
      add_answer_position bytes a (length before + 12) (timed a now reply) r (p - a.rdlength),
    )
