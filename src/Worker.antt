-- ===== src/Worker.antt =====
-- labctl-go/internal/worker: framing, the stderr tail and the life of one worker session.
pub mod Write
pub mod Start
pub mod Frame
pub mod Tail
pub mod Session
mod Examples
