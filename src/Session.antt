-- ===== src/Session.antt =====
-- internal/session: the sessions of a node, their key-value store, names, messages and events.
pub mod KvStore
pub mod Manager
pub mod Messages
pub mod Names
pub mod Events
