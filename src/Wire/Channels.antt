-- ===== src/Wire/Channels.antt =====
-- Every ready wire has an open stop channel of its own, so no operation closes a channel twice.
pub mod Separate
pub mod Invariant
pub mod Removal
pub mod Safety
