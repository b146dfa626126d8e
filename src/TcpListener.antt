-- ===== src/TcpListener.antt =====
-- src/tcplistener.cpp and src/tcplistener.hpp: a socket that listens, and makes a stream for each
-- connection.
pub mod Accepts
mod Tests
use epoller.Prelude.{
  ℕ, List, [], ◌∷◌, ◌++◌, ◌==◌, ltb, Option, none, some, Bool, true, false, ◌>>=◌, if◌then◌else◌,
}
use epoller.Socket.{SockAddr, Errno, Answer, done, fails, convert_from_std_error}
use epoller.Socket.Calls.{SysCall, run_calls, new_listener}
use epoller.TcpStream.Defs.{WriteResult, sent, would_block, failed}
use epoller.Engine.Defs.{Engine, do_add}

-- What accept() gives: a descriptor and the length of the peer's address, or -1 with errno.
pub data Accepted : Type 0 where
  accepted : ℕ → ℕ → Accepted
  refused : Errno → Accepted

-- Socket::accept: `none` where its assertion on the length traps. A call that fails leaves the length.
unfoldable pub accept : Accepted → Option WriteResult
unfolding convert_from_std_error
accept (accepted fd len) = if len == 28 then some (convert_from_std_error (done fd)) else none
accept (refused e) = some (convert_from_std_error (fails e))

-- Where the loop of handleRead is after the answers of accept() that the kernel has given: the descriptors for
-- which createStream has been called, in order, and whether the loop has ended.
pub record Accepting : Type 0 where
  pub streams : List ℕ
  pub ended : Bool

-- A round of the loop after the answer of accept().
abbrev pub after_accept : ℕ → Accepting → Accepting
after_accept fd rest = record rest { streams = fd ∷ rest.streams }

-- handleRead, over the answers that the kernel gives; `none` where an assertion traps, that of accept or
-- that of the constructor of the stream's Socket that its descriptor is above zero.
unfoldable pub handle_read : List Accepted → Option Accepting
unfolding accept
handle_read [] = some (record { streams = []; ended = false })
handle_read (a ∷ more) =
    let rest = handle_read more in
    elim (accept a) [
      | none ↦ none
      | some (sent fd) ↦ if ltb 0 fd then (rest >>= λ r. some (after_accept fd r)) else none
      | some would_block ↦ some (record { streams = []; ended = true })
      | some failed ↦ some (record { streams = []; ended = true })
    ]

-- create: the listener is made and added to the engine, `none` where a call fails whose error traps.
unfoldable pub create : (ℕ → SysCall → Bool) → SockAddr → ℕ → ℕ → Engine → Option Engine
unfolding run_calls do_add
create ok stale port sock e =
    if (run_calls ok 0 (new_listener stale port)).1 then do_add false sock e else none
