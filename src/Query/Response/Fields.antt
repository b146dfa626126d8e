-- ===== src/Query/Response/Fields.antt =====
-- src/query.cpp: the words of a message.
use epoller.Prelude.{
  ℕ, ◌+◌, ◌*◌, ◌≡◌, ◌∷◌, ◌++◌, Bytes, length, arith, some, get_elem?, get_elem?-append,
}
use epoller.Endian.{word16, word32}
use epoller.Query.Message.{word16_at, word32_at, decode_footer, decode_answer}

pub word16_at-append :
    (before rest : Bytes) (a b i : ℕ)
    → get_elem? rest i ≡ some a
    → get_elem? rest (i + 1) ≡ some b
    → word16_at (before ++ rest) (length before + i) ≡ some (256 * a + b)
unfolding word16_at word16
word16_at-append before rest a b i p q =
    ground (arith, get_elem?-append before rest i, get_elem?-append before rest (i + 1))

pub decode_footer_lem :
    (before rest : Bytes) (a b c d : ℕ)
    → decode_footer (before ++ a ∷ b ∷ c ∷ d ∷ rest) (length before)
      ≡ some (record { qtype = 256 * a + b; qclass = 256 * c + d }, length before + 4)
unfolding decode_footer
decode_footer_lem before rest a b c d =
    let words = a ∷ b ∷ c ∷ d ∷ rest in
    ground (arith, word16_at-append before words a b 0, word16_at-append before words c d 2)

word32_at-append :
    (before rest : Bytes) (a b c d i : ℕ)
    → get_elem? rest i ≡ some a
    → get_elem? rest (i + 1) ≡ some b
    → get_elem? rest (i + 2) ≡ some c
    → get_elem? rest (i + 3) ≡ some d
    → word32_at (before ++ rest) (length before + i)
      ≡ some (0x1000000 * a + 0x10000 * b + 0x100 * c + d)
unfolding word32_at word32
word32_at-append before rest a b c d i p q r s = ground (
  arith,
  get_elem?-append before rest i,
  get_elem?-append before rest (i + 1),
  get_elem?-append before rest (i + 2),
  get_elem?-append before rest (i + 3),
)

-- The fixed part of an answer: type, class, time to live and length, behind `before`.
pub decode_answer_lem :
    (before rest : Bytes) (t0 t1 c0 c1 l0 l1 l2 l3 r0 r1 : ℕ)
    → decode_answer
        (before ++ t0 ∷ t1 ∷ c0 ∷ c1 ∷ l0 ∷ l1 ∷ l2 ∷ l3 ∷ r0 ∷ r1 ∷ rest)
        (length before)
      ≡ some (
        record {
          qtype = 256 * t0 + t1;
          qclass = 256 * c0 + c1;
          ttl = 0x1000000 * l0 + 0x10000 * l1 + 0x100 * l2 + l3;
          rdlength = 256 * r0 + r1;
        },
        length before + 10,
      )
unfolding decode_answer
decode_answer_lem before rest t0 t1 c0 c1 l0 l1 l2 l3 r0 r1 =
    let words = t0 ∷ t1 ∷ c0 ∷ c1 ∷ l0 ∷ l1 ∷ l2 ∷ l3 ∷ r0 ∷ r1 ∷ rest in
    ground (
      arith,
      word16_at-append before words t0 t1 0,
      word16_at-append before words c0 c1 2,
      word32_at-append before words l0 l1 l2 l3 4,
      word16_at-append before words r0 r1 8,
    )
