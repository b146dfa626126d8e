-- ===== src/TcpStream/Connected.antt =====
-- src/tcpstream.cpp: whether a stream that has been created with a destination goes on.
use epoller.Prelude.{◌≡◌, ◌⊎◌, true, false, ◌||◌, ltb}
use epoller.TcpStream.Link.{Link}
use epoller.TcpStream.Quiet.{quiet}

record Live (l : Link) : Type 0 where
  free : l.stream.egress_rate ≡ 0
  moves : ltb 0 l.writes || quiet l.stream ≡ true
  start : (l.added ≡ true) ⊎ ((l.stream.once ≡ false) × (l.writes ≡ 0))
