-- ===== src/Echo.antt =====
-- src/main.cpp: class TcpEcho, the client of a stream that sends back what it receives.
pub mod Echoes
mod Tests
use epoller.Prelude.{ℕ, List, [], ◌∷◌, Bytes, Option, some, ◌>>=◌}
use epoller.TcpStream.Defs.{Stream, Round, handle_read, handle_write, queue_write, disconnect}

-- received, of a stream that exists.
unfoldable pub received : Bytes → Stream → Stream
received x s = queue_write x s

-- writeComplete, with initWrite: what is kept of it afterwards.
unfoldable pub write_complete : Bytes → Stream → Bytes × Stream
write_complete [] s = ([], s)
write_complete (b ∷ bs) s = ([], queue_write (b ∷ bs) s)

-- What the engine runs: handleRead, whose loop reads some bytes at a time and hands them to received;
-- handleWrite; the event of a complete write; and disconnect.
pub data Act : Type 0 where
  reads : Bytes → ℕ → Act
  writes : (ℕ → Bytes → Round) → ℕ → Act
  completes : Act
  disconnects : Act

-- An Echo is made with nothing to write first.
unfoldable pub act : Act → Stream → Option Stream
unfolding received write_complete
act (reads x now) s = some (received x (handle_read ((x, now) ∷ []) s))
act (writes kernel fuel) s = handle_write kernel fuel s
act completes s = some (write_complete [] s).1
act disconnects s = some (disconnect s)

unfoldable pub act_all : List Act → Stream → Option Stream
unfolding act
act_all [] s = some s
act_all (a ∷ acts) s = act a s >>= act_all acts
