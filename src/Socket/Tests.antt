-- ===== src/Socket/Tests.antt =====
-- Runs of src/socket.cpp, and the theorems at them.
use epoller.Prelude.{refl, length, ◌≡◌, true, [], ◌∷◌, Bytes, replicate, some, arith}
use epoller.Endian.{little}
use epoller.IpAddr.{InetDest}
use epoller.IpAddr.Mapped.{IsWords, nil, cons}
use epoller.TcpStream.Defs.{sent, would_block}
use epoller.Socket.{
  eagain, got, read_fails, read, write, convert_from_std_error, Answer, done, fails, count_of,
  send_datagram, SockAddr, receive_datagram, datagram,
}
use epoller.Socket.Address.{receive_datagram-reply}

abbrev no_dest : InetDest
no_dest = record { addr = record { d = [] }; port = 0; valid = true; if_index = 0 }

abbrev peer : SockAddr
peer = record {
  sin6_port = 0x3500;
  sin6_flowinfo = 0;
  sin6_scope_id = 2;
  sin6_addr = 0x20 ∷ 1 ∷ 0 ∷ 0 ∷ 0 ∷ 0 ∷ 0 ∷ 0 ∷ 0 ∷ 0 ∷ 0 ∷ 0 ∷ 0 ∷ 0 ∷ 0 ∷ 1 ∷ [];
}

abbrev two_bytes : Bytes
two_bytes = 5 ∷ 6 ∷ []

short_read :
    (read 4 (got two_bytes) ≡ (two_bytes, sent 2))
    × (read 4 (read_fails eagain) ≡ (replicate 4 0, would_block))
    × (write two_bytes (λ bytes. fails eagain) ≡ would_block)
unfolding read write convert_from_std_error
short_read = (refl, refl, refl)

peer-IsWords : IsWords peer.sin6_addr
peer-IsWords = cons (omega arith) (omega arith) (
    cons (omega arith) (omega arith) (
      cons (omega arith) (omega arith) (
        cons (omega arith) (omega arith) (
          cons (omega arith) (omega arith) (
            cons (omega arith) (omega arith)
              (cons (omega arith) (omega arith) (cons (omega arith) (omega arith) nil)))))))

-- What stands in memory, and the address of the reply.
abbrev stale : SockAddr
stale = record { sin6_port = 1; sin6_flowinfo = 8; sin6_addr = []; sin6_scope_id = 9 }

abbrev back : SockAddr
back = record stale { sin6_port = peer.sin6_port; sin6_addr = peer.sin6_addr }

-- A kernel that sends whole datagrams.
abbrev takes_all : SockAddr → Bytes → Answer
takes_all to bytes = done (length bytes)

receive_datagram-reply_example :
    let received = receive_datagram little 4 no_dest peer (datagram peer two_bytes) in
    (send_datagram little stale received.0 (7 ∷ []) takes_all
      ≡ record { to = back; bytes = 7 ∷ []; num_sent = count_of (takes_all back (7 ∷ [])) })
    × (received.1 ≡ two_bytes)
    × (received.2 ≡ some 2)
receive_datagram-reply_example =
    receive_datagram-reply little 4 no_dest peer stale peer two_bytes (7 ∷ []) takes_all
      peer-IsWords (omega arith) (omega arith) (omega arith)
