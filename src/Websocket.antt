-- ===== src/Websocket.antt =====
-- backend/internal/wsserver/websocket.go: frames, and a connection as its unread input bytes, the
-- bytes written so far, and the outcomes of the calls of `Write` that are still to come.
pub mod Frame
pub mod Header
pub mod Masking
pub mod Reading
pub mod Messages
pub mod Handshake
pub mod Session
pub mod Hub
mod Examples
