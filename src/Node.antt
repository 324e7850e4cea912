-- ===== src/Node.antt =====
-- The loop of libuv beside the main loop: atom/common/node_bindings.cc.
pub mod Bindings
pub mod Tokens
pub mod Balance
pub mod Turns
mod Tests
