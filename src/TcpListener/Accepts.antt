-- ===== src/TcpListener/Accepts.antt =====
-- src/tcplistener.cpp: the connections that a listener accepts.
use epoller.Prelude.{
  ℕ, ◌≡◌, ◌<◌, refl, List, [], ◌∷◌, ◌++◌, ltb, some, true, false, arith, All, lt→ltb,
}
use epoller.Socket.{Errno, convert_from_std_error}
use epoller.TcpListener.{Accepted, accepted, refused, accept, handle_read}

-- The connections of some descriptors, with addresses of IPv6.
abbrev pub connections : List ℕ → List Accepted
connections [] = []
connections (fd ∷ fds) = accepted fd 28 ∷ connections fds

-- handleRead makes a stream for every connection that waits, in the order in which the kernel gives them, and ends
-- at the first call that fails, whatever the error; it ends at no other.
handle_read_accepts :
    (fds : List ℕ) (e : Errno) (more : List Accepted)
    → All (λ fd. 0 < fd) fds
    → (handle_read (connections fds ++ refused e ∷ more)
        ≡ some (record { streams = fds; ended = true }))
      × (handle_read (connections fds) ≡ some (record { streams = fds; ended = false }))
unfolding handle_read accept convert_from_std_error
handle_read_accepts [] e more all = (ground arith, refl)
handle_read_accepts (fd ∷ fds) e more all =
    let (stops, waits) = handle_read_accepts fds e more all.1 in
    let above : ltb 0 fd ≡ true = lt→ltb 0 fd all.0 in
    (ground (arith, above, stops), ground (arith, above, waits))
