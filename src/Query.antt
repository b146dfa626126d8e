-- ===== src/Query.antt =====
-- src/query.cpp and src/query.hpp: DNS messages.
pub mod Flags
pub mod Name
pub mod Message
pub mod Response
mod Tests
