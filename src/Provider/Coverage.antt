-- ===== src/Provider/Coverage.antt =====
-- Every live item stream holds a token for every session that may publish: the invariant that ties
-- src/session.cc to src/provider.cc.
pub mod Reset
mod Login
pub mod Publish
pub mod Steps
pub mod Reach
