-- ===== src/IpAddr/Tests.antt =====
-- Runs of src/types.hpp, and the theorems at them.
use epoller.Prelude.{◌≡◌, refl, [], ◌∷◌, Bytes, arith}
use epoller.Endian.{little, network_endian16, word16, from_memory16}
use epoller.IpAddr.{set, to_string, join_words, hex16, words_of}
use epoller.IpAddr.Mapped.{IsWords, nil, cons}

-- 2001:db8::1
abbrev an_address : Bytes
an_address = 0x20 ∷ 0x01 ∷ 0x0d ∷ 0xb8 ∷ 0 ∷ 0 ∷ 0 ∷ 0 ∷ 0 ∷ 0 ∷ 0 ∷ 0 ∷ 0 ∷ 0 ∷ 0 ∷ 1 ∷ []

an_address-IsWords : IsWords an_address
an_address-IsWords = cons (omega arith) (omega arith) (
    cons (omega arith) (omega arith) (
      cons (omega arith) (omega arith) (
        cons (omega arith) (omega arith) (
          cons (omega arith) (omega arith) (
            cons (omega arith) (omega arith)
              (cons (omega arith) (omega arith) (cons (omega arith) (omega arith) nil)))))))

to_string_run :
    to_string (set little an_address)
    ≡ b'2' ∷ b'0' ∷ b'0' ∷ b'1' ∷ b':' ∷ b'd' ∷ b'b' ∷ b'8' ∷ b':' ∷ b'0' ∷ b':' ∷ b'0' ∷ b':'
      ∷ b'0' ∷ b':' ∷ b'0' ∷ b':' ∷ b'0' ∷ b':' ∷ b'1' ∷ []
unfolding to_string set network_endian16 join_words words_of word16 from_memory16 hex16
to_string_run = refl
