-- ===== src/UdpSocket.antt =====
-- src/udpsocket.cpp and src/udpsocket.hpp: a socket with a queue of datagrams.
pub mod Write
mod Tests
use epoller.Prelude.{
  ℕ, zero, suc, ◌+◌, Bool, true, false, List, [], ◌∷◌, ◌++◌, Bytes, ◌==◌, ltb, if◌then◌else◌,
  Option, none, some, length, drop, replicate,
}
use epoller.IpAddr.{InetDest}

abbrev pub max_packet_size : ℕ
max_packet_size = 4096

pub record Datagram : Type 0 where
  pub dest : InetDest
  pub data' : Bytes

-- sendto(): a count, or -1 with an errno that says to try again, or with another one.
pub data SendResult : Type 0 where
  sent : ℕ → SendResult
  would_block failed : SendResult

-- recvmsg(), in the same way.
pub data ReceiveResult : Type 0 where
  datagram : InetDest → Bytes → ReceiveResult
  none_waiting receive_failed : ReceiveResult

-- The calls of the client.
pub data Told : Type 0 where
  not_sent : Datagram → Told
  write_complete disconnected : Told
  received : InetDest → Bytes → Told

pub record UdpSocket : Type 0 where
  pub write_queue : List Datagram
  pub told : List Told

abbrev pub tell : Told → UdpSocket → UdpSocket
tell t s = record s { told = s.told ++ t ∷ [] }

abbrev pub push_back : Datagram → UdpSocket → UdpSocket
push_back d s = record s { write_queue = s.write_queue ++ d ∷ [] }

-- doWrite, given the answer of sendto().
unfoldable pub do_write : SendResult → Datagram → UdpSocket → UdpSocket
do_write would_block d s = push_back d s
do_write failed d s = tell (not_sent d) s
do_write (sent n) d s =
    if n == length d.data'
    then s
    else if ltb 0 n
    then push_back (record d { data' = drop n d.data' }) s
    else s

-- The loop of handleWrite, on fuel: `none` if it runs out. `kernel k d` is the answer to sendto() number
-- `k`.
unfoldable pub handle_write : (ℕ → Datagram → SendResult) → ℕ → ℕ → UdpSocket → Option UdpSocket
handle_write kernel zero k s = none
handle_write kernel (suc fuel) k s = elim s.write_queue [
  | [] ↦ some (tell write_complete s)
  | d ∷ rest ↦
      handle_write kernel fuel (k + 1) (do_write (kernel k d) d (record s { write_queue = rest }))
]

-- queueWrite.
unfoldable pub queue_write :
    (ℕ → Datagram → SendResult) → ℕ → InetDest → Bytes → UdpSocket → Option UdpSocket
queue_write kernel fuel dest data' s =
    handle_write kernel fuel 0 (push_back (record { dest = dest; data' = data' }) s)

-- handleRead. Where the receive has failed the buffer is passed on as it was made, with a source,
-- `unset`, that nothing has set.
unfoldable pub handle_read : ReceiveResult → InetDest → UdpSocket → UdpSocket
handle_read (datagram from bytes) unset s = tell (received from bytes) s
handle_read none_waiting unset s = s
handle_read receive_failed unset s = tell (received unset (replicate max_packet_size 0)) s

-- handleError.
unfoldable pub handle_error : UdpSocket → UdpSocket
handle_error s = tell disconnected s
