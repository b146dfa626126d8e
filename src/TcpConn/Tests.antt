-- ===== src/TcpConn/Tests.antt =====
-- Runs of src/tcpconn.cpp and of destFromString, and the theorems at them.
use epoller.Prelude.{
  ◌≡◌, Bool, false, ◌==◌, inl, inr, [], ◌∷◌, Bytes, none, some, count_if, if◌then◌else◌, arith,
  Bool-cases,
}
use epoller.Endian.{little}
use epoller.IpAddr.{IpAddr}
use epoller.IpAddr.Mapped.{mapped, mapped-IsWords}
use epoller.TcpConn.{InetPton, create}
use epoller.TcpConn.Dest.{IsInetPton}
use epoller.TcpConn.Once.{found, not_found, effects_of, ends_wait, create_once}

abbrev an_address : IpAddr
an_address = record { d = 0 ∷ 0 ∷ 0 ∷ 0 ∷ 0 ∷ 0xffff ∷ 0x0a00 ∷ 0x0001 ∷ [] }

-- "1.2.3.4"
abbrev a_text : Bytes
a_text = b'1' ∷ b'.' ∷ b'2' ∷ b'.' ∷ b'3' ∷ b'.' ∷ b'4' ∷ []

-- Does a text begin with a digit one?
abbrev starts : Bytes → Bool
starts [] = false
starts (c ∷ cs) = c == b'1'

-- An inet_pton() that knows one text, alone and behind the prefix.
abbrev one_text : InetPton
one_text = record {
  inet = λ t. if starts t then some (1 ∷ 2 ∷ 3 ∷ 4 ∷ []) else none;
  inet6 = λ t. if starts t then none else some (mapped 1 2 3 4);
}

one_text-IsInetPton : IsInetPton one_text
one_text-IsInetPton = record {
  words = λ t b e. elim (Bool-cases (starts t)) [
    | inl here ↦ absurd (ground (arith, e, here))
    | inr other ↦
        let eq : mapped 1 2 3 4 ≡ b = ground (arith, e, other) in
        rw (← eq) (mapped-IsWords 1 2 3 4 (omega arith) (omega arith) (omega arith) (omega arith))
  ];
  maps = λ t a b c d e. ground (arith, e);
}

-- An inet_pton() that knows no text.
abbrev no_text : InetPton
no_text = record { inet = λ t. none; inet6 = λ t. none }

-- A name, for which the resolver has no answer and then two.
create_once_example :
    count_if ends_wait (
      effects_of
        (not_found ∷ found an_address ∷ found an_address ∷ [])
        (create no_text little [] [] (b'a' ∷ []) 80))
    ≡ 1
create_once_example =
    create_once no_text little [] [] (b'a' ∷ []) 80
      (not_found ∷ found an_address ∷ found an_address ∷ [])
