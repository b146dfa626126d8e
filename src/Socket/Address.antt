-- ===== src/Socket/Address.antt =====
-- src/socket.cpp: the buffers that are read, and addresses on their way from the kernel and back.
use epoller.Prelude.{
  ℕ, zero, suc, inl, inr, Bool-cases, ◌-◌, ◌≡◌, ◌≤◌, ◌<◌, refl, ap, ◌∙◌, true, [], ◌∷◌, ◌++◌, Bytes,
  ltb, if◌then◌else◌, Option, some, length, drop, take, replicate, sub_size, size_mod, arith,
  append-nil, length-append,
}
use epoller.Endian.{Host, network_endian16, from_memory32}
use epoller.IpAddr.{InetDest, set_ipv4_word}
use epoller.IpAddr.Mapped.{IsWords, get-set, get-set_ipv4, mapped}
use epoller.TcpStream.Defs.{sent, would_block, failed}
use epoller.Socket.{
  Errno, convert_from_std_error, got, read_fails, shrunk, read, SockAddr, Answer, count_of,
  send_datagram, sock_addr, from_sock_addr, receive_datagram, datagram, original_destination,
  is_retry,
}

take-length-append : (xs ys : Bytes) → take (length xs) (xs ++ ys) ≡ xs
take-length-append [] ys = refl
take-length-append (x ∷ xs) ys = ground (arith, take-length-append xs ys)

drop_all : (n : ℕ) → drop n (replicate {A = ℕ} n 0) ≡ []
drop_all zero = refl
drop_all (suc n) = drop_all n

shrunk_lem :
    (size : ℕ) (bytes : Bytes) → length bytes ≤ size → size < size_mod → shrunk size bytes ≡ bytes
shrunk_lem size bytes fits small =
    let n = length bytes in
    let kept : Bytes = drop n (replicate size 0) in
    let none_new : n - length (bytes ++ kept) ≡ 0 = omega (arith, length-append bytes kept) in
    elim (Bool-cases (ltb 0 (sub_size size n))) [
      | inl short ↦ rw (short, none_new, take-length-append bytes kept) (append-nil bytes)
      | inr full ↦
          let same : size ≡ n = ground (arith, full, fits, small) in
          let nothing : drop n (replicate {A = ℕ} size 0) ≡ [] = rw same (drop_all n) in
          rw (full, nothing) (append-nil bytes)
    ]

network_endian16_twice : (d : ℕ) → d < 0x10000 → network_endian16 (network_endian16 d) ≡ d
unfolding network_endian16
network_endian16_twice d h = omega (arith, h)

-- A read into a buffer gives the bytes that the kernel has written and no others; where it has written
-- none and failed, the buffer keeps its zeros, and the result is -1 exactly for the errors after which the call is
-- made again.
read_lem :
    (size : ℕ) (bytes : Bytes) (e : Errno)
    → length bytes ≤ size
    → size < size_mod
    → (read size (got bytes) ≡ (bytes, sent (length bytes)))
      × (read size (read_fails e)
          ≡ (replicate size 0, (if is_retry e then would_block else failed)))
unfolding read convert_from_std_error
read_lem size bytes e fits small = (rw (shrunk_lem size bytes fits small), refl)

-- A datagram that is sent to where another came from goes to the address and the port that the kernel had
-- named, with its bytes and the flow and the scope that stand in memory, and the number that
-- sendDatagram returns is the kernel's for them; and the datagram that was received holds the bytes that
-- the kernel had written.
pub receive_datagram-reply :
    (host : Host) (size : ℕ) (where_from : InetDest) (unset stale addr : SockAddr)
    (bytes reply : Bytes) (kernel : SockAddr → Bytes → Answer)
    → IsWords addr.sin6_addr
    → addr.sin6_port < 0x10000
    → length bytes ≤ size
    → size < size_mod
    → let received = receive_datagram host size where_from unset (datagram addr bytes) in
      let to : SockAddr = record stale { sin6_port = addr.sin6_port; sin6_addr = addr.sin6_addr } in
      (send_datagram host stale received.0 reply kernel
        ≡ record { to = to; bytes = reply; num_sent = count_of (kernel to reply) })
      × (received.1 ≡ bytes)
      × (received.2 ≡ some (length bytes))
unfolding receive_datagram send_datagram sock_addr from_sock_addr
receive_datagram-reply host size where_from unset stale addr bytes reply kernel words port fits
      small =
    (
      ap (λ a. record { to = a; bytes = reply; num_sent = count_of (kernel a reply) })
          (ap
              (λ a. record stale {
                sin6_port = network_endian16 (network_endian16 addr.sin6_port);
                sin6_addr = a;
              })
              (get-set host words)
            ∙ ap (λ p. record stale { sin6_port = p; sin6_addr = addr.sin6_addr })
                (network_endian16_twice addr.sin6_port port)),
      shrunk_lem size bytes fits small,
      refl,
    )

-- A connection to the original destination of one that was redirected over IPv4 goes to the mapped address
-- of its four bytes, and to the port that the kernel had named.
original_destination-connect :
    (host : Host) (from : InetDest) (v6 : Option (SockAddr × ℕ)) (s0 s1 s2 s3 sin_port : ℕ)
    (stale : SockAddr)
    → s0 < 256
    → s1 < 256
    → s2 < 256
    → s3 < 256
    → sin_port < 0x10000
    → (dest : InetDest) × (original_destination host from
          (some (from_memory32 host s0 s1 s2 s3, sin_port, 16))
          v6
        ≡ some dest)
      × (dest.valid ≡ true)
      × (sock_addr host stale dest
          ≡ record stale { sin6_port = sin_port; sin6_addr = mapped s0 s1 s2 s3 })
unfolding original_destination sock_addr
original_destination-connect host from v6 s0 s1 s2 s3 sin_port stale h0 h1 h2 h3 port = (
  record from {
    addr = set_ipv4_word host (from_memory32 host s0 s1 s2 s3);
    valid = true;
    port = network_endian16 sin_port;
  },
  refl,
  refl,
  (let (stored, word) = get-set_ipv4 host s0 s1 s2 s3 h0 h1 h2 h3 in
      rw (network_endian16_twice sin_port port, word, stored)),
)
