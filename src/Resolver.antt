-- ===== src/Resolver.antt =====
-- src/resolverimpl.cpp, src/resolverimpl.hpp and src/resolver.hpp: the resolver, with the addresses that
-- it keeps by name and its open requests.
pub mod Names
pub mod Lookup
pub mod Kept
pub mod Requests
pub mod Answers
pub mod Complete
pub mod Timeouts
pub mod Udp
pub mod Replies
pub mod Flow
mod Tests
