-- ===== src/Protocol.antt =====
-- labctl-go/internal/protocol/protocol.go: the wire protocol between the controller and a worker.
pub mod Hex
pub mod Message
pub mod Result
pub mod Response
pub mod Strict
pub mod Fixture
mod Examples
