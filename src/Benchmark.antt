-- ===== src/Benchmark.antt =====
-- labctl-go/internal/benchmark: the records of a capture, its statistics and its analysis, the process
-- boundary and the checks of what a process returned.
pub mod Types
pub mod Suite
pub mod Receipts
pub mod Stats
pub mod Arith
pub mod Apportion
pub mod Payload
pub mod Engine
pub mod Profile
pub mod Evidence
pub mod ProfileEvidence
pub mod VerifyEvidence
pub mod Fixture
mod Examples
mod Runs
