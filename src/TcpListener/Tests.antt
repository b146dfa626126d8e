-- ===== src/TcpListener/Tests.antt =====
-- Runs of src/tcplistener.cpp.
use epoller.Prelude.{◌≡◌, refl, true, [], ◌∷◌, some}
use epoller.Socket.{eagain, convert_from_std_error}
use epoller.TcpListener.{accepted, refused, accept, handle_read}

-- Two connections, and one more after the kernel has said that there is none.
two_accepted :
    handle_read (accepted 7 28 ∷ accepted 9 28 ∷ refused eagain ∷ accepted 11 28 ∷ [])
    ≡ some (record { streams = 7 ∷ 9 ∷ []; ended = true })
unfolding handle_read accept convert_from_std_error
two_accepted = refl
