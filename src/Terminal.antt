-- ===== src/Terminal.antt =====
-- internal/terminal: the byte-level automata between the client's terminal and a session's PTY.
pub mod Kitty
pub mod Detach
pub mod Ansi
pub mod OutputState
