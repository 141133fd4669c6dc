-- ===== src/Lib.antt =====
-- A model of the controller `labctl-go`: how it talks to the Rust engine, what it accepts from
-- it, and what it computes from the accepted measurements.
--
-- The parts, and the files that model them:
--   * Protocol (labctl-go/internal/protocol/protocol.go). Protocol/Hex: `FormatRequestID`,
--     `validateRequestID`, the strict u64 texts of protocol.go and of benchmark/types.go.
--     Protocol/Message: wire records, errors, text checks. Protocol/Result: `validateResult`.
--     Protocol/Response: `ProjectWorkload`, `EncodeExecuteFrame`, `EncodeShutdownFrame`,
--     `DecodeResponse` and the decoders below it.
--   * Worker (labctl-go/internal/worker). Worker/Frame: `readFrame` of frame.go. Worker/Tail:
--     `boundedTail`. Worker/Session: the state machine of session.go; `Execute`, `Shutdown`,
--     `Close`. Worker/Start: `Start` with its pipes and process. Worker/Write: `writeAll`.
--   * Benchmark (labctl-go/internal/benchmark). Types: records of types.go. Stats: stats.go.
--     Arith, Apportion, Profile/Analyze: profile_stats.go. Payload, Engine: engine.go. Profile:
--     profile_types.go and `validateProfileEngineResult` of profile_engine.go. Suite: the
--     validation of suites in types.go. Evidence: the capture records of types.go and what
--     execute.go and verify.go share. Evidence/Execute: `Execute`. Evidence/Verify:
--     `verifyCapture`. ProfileEvidence, likewise: `ExecuteProfile` and `verifyProfileReport`.
--     Profile/Run: `RunProfileEngine`. Receipts, VerifyEvidence: `VerifyEvidence`.
--   * JsonCheck (labctl-go/internal/jsoncheck): the scan for duplicate keys on tokens, and
--     `Decode`. Protocol/Strict: the decoding of messages by `Decode`.
--   * BuildInfo (labctl-go/internal/buildinfo): `Resolve` and `String`.
--   * Doctor (labctl-go/internal/doctor). Tools: the list of tools. Version:
--     `parseNumericVersion`, `versionLine`. Assess: `assess`, `commandProbe`, `Check`. Report:
--     `Report.String`. Platform: platform.go.
--   * App (labctl-go/internal/app, labctl-go/cmd/labctl). App: exit codes. Options: the parsers
--     of the benchmark and profile commands. VerifyOptions: that of the verify command. Workload:
--     `runWorkload`. Reports: the other commands. Run: `Run` and `main`.
--   * Prelude: Boolean tests, lists, machine words, byte texts and what is used of Go's `strings`
--     and `strconv`, UTF-8 decoding, insertion sort and `Outcome`, the result of a function that
--     returns `(value, error)` or panics.
--
-- How they interact: a session sends a frame that Protocol/Response encodes, reads one with
-- Worker/Frame and decodes it with Protocol/Response. The one-shot engine of Benchmark/Engine
-- collects the output of a process with Benchmark/Payload and checks it with Protocol/Response.
-- The analysis of Benchmark/Profile/Analyze uses Benchmark/Arith and Benchmark/Apportion.
--
-- The commands of App stand on the others: `runWorkload` drives a worker session through the
-- interface `WorkerSession`, which Worker/Session fills, and `runDoctor` exits by the report of
-- Doctor.
--
-- How state and operations correspond: a Go string or byte slice is its list of bytes, a pointer
-- an option, a `uint64` a number with its wrap-around written out, a binary64 number its bits,
-- and an error a constructor with no message text in Protocol, Worker, Benchmark and JsonCheck,
-- and its text in Doctor and App. A session is the record of its fields; each operation is a
-- function from a session to the session after it and an outcome. What the process and the
-- scheduler do during a call is an argument of the call (`Entry`, `Exchange`, `Exit`): whether
-- the context is done, the process has exited, the write succeeds, `Close` comes between, and
-- which bytes arrive. `select` prefers a completed exchange, so that a cancelled exchange is one
-- that did not complete.
--
-- Parameters: `Codec` stands for encoding/json and jsoncheck at the wire types, `EngineWorld`
-- also for the one-shot process and the clock; `JsonLibrary` for encoding/json under jsoncheck;
-- `System`, `Host` and `Kernel` for what the doctor reads of the host; `Dependencies` and `World`
-- for what stands behind the commands, the verbs `%q` and `%.17g` and the JSON encoder; `Files`,
-- `Run`, `ProfileRun` and `EvidenceWorld` for the files, SHA-256, `filepath`, the decoders, the
-- runners and the clock of a capture, a report and its verification; `Writers` for which of the two
-- outputs fail and how many bytes they take before. Where a theorem assumes something of them, it
-- is a hypothesis.
--
-- Bounds and fuel: `read_loop` runs on the number of pending bytes plus one, since each read that
-- goes on takes at least one byte; `decode_fuel` runs on the length of the text, since each rune
-- takes a byte. The scan of a token stream runs on twice its length plus one, two for the turn of
-- a loop that takes a token; `write_loop` on the length of the data, of which each turn writes a
-- byte at least. The frame limit is 4194304 bytes, as in the source.
--
-- Not modelled: error texts but in Doctor and App, the bytes in a pipe, goroutines as such,
-- signals, and the persistence of evidence (persist.go). The Rust engine is outside this model.
pub mod Prelude
pub mod JsonCheck
pub mod BuildInfo
pub mod Doctor
pub mod Protocol
pub mod Worker
pub mod Benchmark
pub mod App
