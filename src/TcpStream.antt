-- ===== src/TcpStream.antt =====
-- src/tcpstream.cpp and src/tcpstream.hpp: a stream with a queue of writes, a limit on the rate of
-- what it sends, and the calls that it makes of the engine and of its client.
pub mod Defs
pub mod Round
pub mod Queue
pub mod Output
pub mod Total
pub mod Progress
pub mod Life
pub mod Link
pub mod Rounds
pub mod Handled
pub mod Kept
pub mod Egress
pub mod Resumed
pub mod Quiet
pub mod Connected
pub mod Unadded
mod Tests
mod LinkTests
