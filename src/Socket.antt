-- ===== src/Socket.antt =====
-- src/socket.cpp and src/socket.hpp: a descriptor and the system calls on it. What the kernel answers is a
-- parameter.
pub mod Address
pub mod Calls
mod Tests
use epoller.Prelude.{
  ℕ, ◌-◌, Bool, true, false, List, [], ◌∷◌, ◌++◌, Bytes, ◌==◌, ltb, if◌then◌else◌, Option, none,
  some, length, drop, take, replicate, sub_size,
}
use epoller.Endian.{Host, network_endian16}
use epoller.IpAddr.{IpAddr, InetDest, set, get, set_ipv4_word}
use epoller.TcpStream.Defs.{WriteResult, sent, would_block, failed}

pub data Errno : Type 0 where
  eintr eagain ewouldblock einprogress other : Errno

-- What a system call returns: a count or a descriptor, or -1 with errno.
pub data Answer : Type 0 where
  done : ℕ → Answer
  fails : Errno → Answer

abbrev pub is_retry : Errno → Bool
is_retry other = false
is_retry _ = true

-- convertFromStdError.
unfoldable pub convert_from_std_error : Answer → WriteResult
convert_from_std_error (done n) = sent n
convert_from_std_error (fails e) = if is_retry e then would_block else failed

-- std::vector::resize.
abbrev pub resize : ℕ → Bytes → Bytes
resize n bytes = take n bytes ++ replicate (n - length bytes) 0

-- The bytes that the kernel writes to a buffer of zeros, or -1 with errno.
pub data ReadAnswer : Type 0 where
  got : Bytes → ReadAnswer
  read_fails : Errno → ReadAnswer

-- A buffer of `size` zeros after a call that has written `bytes` to it.
abbrev pub filled : ℕ → Bytes → Bytes
filled size bytes = bytes ++ drop (length bytes) (replicate size 0)

abbrev pub shrunk : ℕ → Bytes → Bytes
shrunk size bytes =
    if ltb 0 (sub_size size (length bytes))
    then resize (length bytes) (filled size bytes)
    else filled size bytes

-- read, into a buffer of `size` bytes.
unfoldable pub read : ℕ → ReadAnswer → Bytes × WriteResult
unfolding convert_from_std_error
read size (got bytes) = (shrunk size bytes, convert_from_std_error (done (length bytes)))
read size (read_fails e) = (replicate size 0, convert_from_std_error (fails e))

-- write, given what the kernel answers for the bytes: they, and what it returns.
unfoldable pub write : Bytes → (Bytes → Answer) → WriteResult
unfolding convert_from_std_error
write bytes kernel = convert_from_std_error (kernel bytes)

-- sockaddr_in6, with the port as the word that the host reads in memory.
pub record SockAddr : Type 0 where
  pub sin6_port : ℕ
  pub sin6_flowinfo : ℕ
  pub sin6_addr : Bytes
  pub sin6_scope_id : ℕ

-- The address that connect and sendDatagram pass to the kernel. `stale` is what stands in memory where they
-- make it: neither sets the flow and the scope.
unfoldable pub sock_addr : Host → SockAddr → InetDest → SockAddr
sock_addr host stale where_to = record stale {
  sin6_port = network_endian16 where_to.port;
  sin6_addr = get host where_to.addr;
}

-- bind, to any address, in the same way.
unfoldable pub bind_addr : SockAddr → ℕ → SockAddr
bind_addr stale port = record stale {
  sin6_port = network_endian16 port;
  sin6_addr = replicate 16 0;
}

-- The destination that receiveDatagram and originalDestination make of an address of the kernel.
unfoldable pub from_sock_addr : Host → InetDest → SockAddr → InetDest
from_sock_addr host where_from addr = record where_from {
  addr = set host addr.sin6_addr;
  port = network_endian16 addr.sin6_port;
}

-- What recvmsg() gives: a datagram and where it came from, or -1 with errno.
pub data DatagramAnswer : Type 0 where
  datagram : SockAddr → Bytes → DatagramAnswer
  none_received : Errno → DatagramAnswer

-- receiveDatagram: the source, the buffer and the number of bytes, `none` for -1. `unset` is what stands in
-- the address that the kernel has not written.
unfoldable pub receive_datagram :
    Host → ℕ → InetDest → SockAddr → DatagramAnswer → InetDest × Bytes × Option ℕ
unfolding from_sock_addr
receive_datagram host size where_from unset (datagram addr bytes) =
    (from_sock_addr host where_from addr, shrunk size bytes, some (length bytes))
receive_datagram host size where_from unset (none_received e) =
    (from_sock_addr host where_from unset, replicate size 0, none)

-- A datagram that is handed to sendto(), and what sendDatagram returns, `none` for -1.
pub record SentDatagram : Type 0 where
  pub to : SockAddr
  pub bytes : Bytes
  pub num_sent : Option ℕ

abbrev pub count_of : Answer → Option ℕ
count_of (done n) = some n
count_of (fails e) = none

-- sendDatagram.
unfoldable pub send_datagram :
    Host → SockAddr → InetDest → Bytes → (SockAddr → Bytes → Answer) → SentDatagram
unfolding sock_addr
send_datagram host stale where_to bytes kernel =
    let addr = sock_addr host stale where_to in
    record { to = addr; bytes = bytes; num_sent = count_of (kernel addr bytes) }

-- originalDestination of a TCP socket: the kernel's answer for IPv4, as the two words of sockaddr_in and the
-- length, and that for IPv6. `none` where an assertion on the length traps.
unfoldable pub original_destination :
    Host → InetDest → Option (ℕ × ℕ × ℕ) → Option (SockAddr × ℕ) → Option InetDest
unfolding from_sock_addr
original_destination host from (some (s_addr, sin_port, len)) v6 =
    if len == 16
    then some (record from {
      addr = set_ipv4_word host s_addr;
      port = network_endian16 sin_port;
      valid = true;
    })
    else none
original_destination host from none (some (addr, len)) =
    if len == 28 then some (record (from_sock_addr host from addr) { valid = true }) else none
original_destination host from none none = some (record from { valid = false })
