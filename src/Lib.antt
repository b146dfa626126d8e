-- ===== src/Lib.antt =====
-- epoller: a library for servers around epoll, with TCP streams, UDP sockets, timers and a resolver.
--
-- The program's parts. The Engine (src/engine.cpp) waits in epoll for what happens to its sockets and
-- to one kernel timer, queues an Event for each, and has workers, woken by a Semaphore, run them.
-- Timers (src/timers.cpp) keeps the timers of all objects and calls the engine back to arm the kernel
-- timer. TcpStream (src/tcpstream.cpp) and UdpSocket (src/udpsocket.cpp) are sockets with a queue of
-- writes, which the engine calls when their descriptors are ready, and which set timers. ResolverImpl
-- (src/resolverimpl.cpp) asks a name server through a UdpSocket, with the messages of src/query.cpp,
-- and keeps the addresses (src/types.hpp, in network order by src/endians.hpp) by name. Socket
-- (src/socket.cpp) is what TcpStream, UdpSocket and TcpListener (src/tcplistener.cpp), which accepts
-- connections, have in common. Logger (src/logger.cpp) writes lines of text. The program itself
-- (src/main.cpp) is a proxy for HTTP: an HttpProxy for each stream to a client, and a Remote for each
-- stream to a server, which TcpConnection (src/tcpconn.cpp) makes.
--
-- The files. Prelude has the shared names, the tests on native numbers and the lemmas on lists and
-- counts. A state is a record, with the source's fields in the source's words, and an operation a
-- function from state to state; what an operation asks of another part is a value of its result, a list
-- in its state, or a call of the other part's model where both are here.
--   Endian: networkEndian of src/endians.hpp, for a host of either byte order.
--   IpAddr: IpAddr and InetDest of src/types.hpp.
--   Query: src/query.cpp. Query/Flags has the flag word, Query/Name getLen, encodeName and decodeName,
--     Query/Message the parts of a message and resolve, Query/Response decode. It is for little-endian
--     hosts. A read out of the message is undefined in the source and gives `none`.
--   Timers: src/timers.cpp. Timers/Defs has the operations (setTimer is set_timer, and so on), with
--     `none` for an assertion, which traps, and the readings of the clock as a parameter;
--     Timers/Trigger has histories of calls, and Timers/Schedule what they may make of a schedule, a
--     function from owner and event to the time at which it is due.
--   Counters: src/counters.cpp.
--   Engine: src/engine.cpp. Engine/Defs has the operations under their names, with the kernel's calls
--     as a list, and the handlers of sockets as a parameter of run; Engine/Reached the states that they
--     reach from the start. Engine/Loop has doEpoll, over the rounds of epoll_wait and the signals that
--     come in them, the passes of stopWorkers, over what has exited at each, and doInit; Engine/Work the
--     round of a worker and src/event.cpp; Engine/Static the static functions in front of the engine.
--     Engine/Workers has newEvent, doRunAsync, worker and src/semaphore.cpp as steps between locks, which
--     interleave, with the ways in which a worker leaves, while the engine's stopping is not set.
--   Socket: src/socket.cpp, with the kernel's answers as parameters. Socket/Calls has the system calls
--     that make the sockets of src/tcplistener.cpp and src/udpsocket.cpp, in their order.
--   TcpListener: src/tcplistener.cpp.
--   TcpStream: src/tcpstream.cpp. The loop of handleWrite is on fuel, and the kernel is a parameter; as
--     many rounds as there are queued bytes and one are enough (TcpStream/Total).
--     TcpStream/Life has create and the destructor; TcpStream/Link a stream from create on, with what the
--     engine has on its way to it, as steps, until and after disconnect removes it.
--   UdpSocket: src/udpsocket.cpp, in the same way.
--   Resolver: src/resolverimpl.cpp. Resolver/Names has the addresses of a name; its search is on fuel,
--     of which as many rounds as addresses and one are enough (Resolver/Kept). Resolver/Requests has
--     resolve, requestComplete and queryTimedout, with `none` for back() of an empty vector.
--     Resolver/Udp has class UdpResolver and src/resolver.cpp.
--   TcpConn: src/tcpconn.cpp, and destFromString of src/socket.cpp with inet_pton() as a parameter.
--   HttpProxy: findFirstPattern and class Remote of src/main.cpp. HttpProxy/Client has class HttpProxy,
--     and HttpProxy/Header the loop of its received over the lines of a header, on fuel, of which as many
--     rounds as bytes and one are enough; the byte behind the header, which it reads, is a parameter.
--     HttpProxy/Pair has the calls between the two, and the states that they reach.
--   Echo: class TcpEcho of src/main.cpp, with the calls that the engine makes of its stream.
--   Ping, Exit: classes PingTimer and ExitTimer of src/main.cpp, with the engine that runs their timers.
--   Utils: the text of src/utils.cpp, and intToHexString of src/utils.hpp.
--   Logger: src/logger.cpp, with the text of the seconds as a parameter. The loop that writes zeros is on
--     fuel, of which nine rounds are enough (Logger/Stamp).
--
-- Counts of bytes and of nanoseconds are unbounded numbers, but for the arithmetic on size_t in getLen,
-- the 64-bit product of handleWrite, the 16-bit words of messages and request numbers, and the engine's
-- counter of ids, which wrap as in the source.
--
-- Not modelled: the descriptors and the signal handlers that the constructor of Engine and doInit ask
-- the kernel for, and the threads as such, so that doInit does not interleave with the workers that it
-- starts; the readings of the clock (src/clock.cpp), which are parameters; the ancillary data of
-- receiveDatagram, which is only logged, and the other text for logs; TLS (src/tlscredentials.cpp and the
-- other TLS files hold comments only); and the classes of src/main.cpp that its main does not use, but
-- for TcpEcho, PingTimer and ExitTimer.
pub mod Prelude
pub mod Endian
pub mod IpAddr
pub mod Query
pub mod Timers
pub mod Counters
pub mod Engine
pub mod TcpStream
pub mod UdpSocket
pub mod Resolver
pub mod Socket
pub mod TcpListener
pub mod HttpProxy
pub mod TcpConn
pub mod Utils
pub mod Logger
pub mod Echo
pub mod Ping
pub mod Exit
