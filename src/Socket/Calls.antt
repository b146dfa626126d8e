-- ===== src/Socket/Calls.antt =====
-- src/socket.cpp, src/tcplistener.cpp and src/udpsocket.cpp: the system calls that make a socket, and which of
-- them may fail.
use epoller.Prelude.{
  ℕ, ◌+◌, ◌≡◌, Bool, true, false, ◌&&◌, List, [], ◌∷◌, ◌++◌, if◌then◌else◌, arith,
}
use epoller.Endian.{Host}
use epoller.IpAddr.{InetDest}
use epoller.Socket.{SockAddr, sock_addr, bind_addr}

pub data SockType : Type 0 where
  udp tcp : SockType

pub data SockOption : Type 0 where
  tcp_nodelay recvpktinfo original_dst so_reuseaddr ip_transparent : SockOption

-- The calls: socket(), fcntl() to read the flags and to add O_NONBLOCK, setsockopt() that sets an option
-- to one, bind(), listen() and connect().
pub data SysCall : Type 0 where
  make_socket : SockType → SysCall
  get_flags add_nonblock : SysCall
  set_option : SockOption → SysCall
  bind_to connect_to : SockAddr → SysCall
  listen_max : ℕ → SysCall

-- A call, and what becomes of its error: pErrorThrow traps, pErrorLog logs it, or nobody looks.
pub data Demand : Type 0 where
  throws logs ignores : SysCall → Demand

-- The calls in their order, up to one that fails and whose error throws: those that are made, and
-- whether they come to the end. `ok k call` is whether the kernel grants the call with the number `k`; for
-- socket() that means a descriptor above zero, which the constructor asserts.
unfoldable pub run_calls : (ℕ → SysCall → Bool) → ℕ → List Demand → List SysCall × Bool
run_calls ok k [] = ([], true)
run_calls ok k (throws call ∷ more) =
    let (made, end) = run_calls ok (k + 1) more in
    if ok k call then (call ∷ made, end) else (call ∷ [], false)
run_calls ok k (logs call ∷ more) =
    let (made, end) = run_calls ok (k + 1) more in (call ∷ made, end)
run_calls ok k (ignores call ∷ more) =
    let (made, end) = run_calls ok (k + 1) more in (call ∷ made, end)

-- makeNonBlocking.
abbrev pub make_non_blocking : List Demand
make_non_blocking = throws get_flags ∷ throws add_nonblock ∷ []

-- createSocket.
abbrev pub create_socket : SockType → List Demand
create_socket tcp = throws (make_socket tcp) ∷ logs (set_option tcp_nodelay) ∷ []
create_socket udp =
    throws (make_socket udp) ∷ logs (set_option recvpktinfo) ∷ logs (set_option original_dst) ∷ []

-- The constructor of Socket that takes the type only.
abbrev pub new_socket : SockType → List Demand
new_socket type = create_socket type ++ make_non_blocking

abbrev pub reuse_address : List Demand
reuse_address = throws (set_option so_reuseaddr) ∷ []

abbrev pub make_transparent : List Demand
make_transparent = logs (set_option ip_transparent) ∷ []

-- bind.
abbrev pub bind_socket : SockAddr → ℕ → List Demand
bind_socket stale port = make_non_blocking ++ throws (bind_to (bind_addr stale port)) ∷ []

-- connect, whose result its callers get.
abbrev pub connect_socket : Host → SockAddr → InetDest → List Demand
connect_socket host stale where_to =
    make_non_blocking ++ ignores (connect_to (sock_addr host stale where_to)) ∷ []

-- listen.
abbrev pub listen_socket : List Demand
listen_socket = throws (listen_max 64) ∷ []

-- The constructor of TcpListener.
abbrev pub new_listener : SockAddr → ℕ → List Demand
new_listener stale port =
    new_socket tcp
    ++ (reuse_address
        ++ (make_transparent ++ (bind_socket stale port ++ (make_non_blocking ++ listen_socket))))

-- UdpSocket::create with a port: the constructor and bindAndAdd, but for the call of Engine::add.
abbrev pub bound_udp : SockAddr → ℕ → List Demand
bound_udp stale port = new_socket udp ++ (make_transparent ++ bind_socket stale port)

-- UdpSocket::create with a destination: the constructor and connectAndAdd. The client is told that it is
-- connected behind these calls.
abbrev pub connected_udp : Host → SockAddr → InetDest → List Demand
connected_udp host stale dest =
    new_socket udp ++ (make_transparent ++ connect_socket host stale dest)

-- All of some calls are granted, each at its number.
abbrev pub all_ok : (ℕ → SysCall → Bool) → List (ℕ × SysCall) → Bool
all_ok ok [] = true
all_ok ok ((k, call) ∷ more) = ok k call && all_ok ok more

-- A TcpListener is made exactly where the kernel grants a socket, its flags each time that they are set,
-- SO_REUSEADDR, the port and listen(); whether it grants TCP_NODELAY or IP_TRANSPARENT does not
-- matter.
new_listener_ends :
    (ok : ℕ → SysCall → Bool) (stale : SockAddr) (port : ℕ)
    → (run_calls ok 0 (new_listener stale port)).1
      ≡ all_ok ok (
          (0, make_socket tcp)
          ∷ (2, get_flags)
          ∷ (3, add_nonblock)
          ∷ (4, set_option so_reuseaddr)
          ∷ (6, get_flags)
          ∷ (7, add_nonblock)
          ∷ (8, bind_to (bind_addr stale port))
          ∷ (9, get_flags)
          ∷ (10, add_nonblock)
          ∷ (11, listen_max 64)
          ∷ [])
unfolding run_calls
new_listener_ends ok stale port = ground arith

-- A UdpSocket for a destination is made, and its client told that it is connected, exactly where the
-- kernel grants a socket and its flags, also where connect() fails; one for a port exactly where the
-- kernel grants the port too.
new_udp_ends :
    (ok : ℕ → SysCall → Bool) (host : Host) (stale : SockAddr) (dest : InetDest) (port : ℕ)
    → let base : List (ℕ × SysCall) =
        (0, make_socket udp)
        ∷ (3, get_flags)
        ∷ (4, add_nonblock)
        ∷ (6, get_flags)
        ∷ (7, add_nonblock)
        ∷ [] in
      ((run_calls ok 0 (connected_udp host stale dest)).1 ≡ all_ok ok base)
      × ((run_calls ok 0 (bound_udp stale port)).1
          ≡ all_ok ok (base ++ (8, bind_to (bind_addr stale port)) ∷ []))
unfolding run_calls
new_udp_ends ok host stale dest port = (ground arith, ground arith)
