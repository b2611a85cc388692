-- ===== src/Session.antt =====
-- src/session.cc: one RFA session, its login state machine and its tokens.
pub mod Counters
pub mod Tokens
pub mod Events
pub mod Muting
pub mod Unsent
pub mod Balance
pub mod End
