-- ===== src/Provider.antt =====
-- src/provider.cc: the sessions of one provider, its item streams and its service directory.
pub mod Directory
pub mod Streams
pub mod Coverage
pub mod Login
pub mod Negotiation
pub mod Version
