-- ===== src/Client.antt =====
-- internal/client: the command line's side of a relay.
pub mod AccessCache
