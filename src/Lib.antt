-- ===== src/Lib.antt =====
-- Verification of nats-micro, a Rust framework for NATS services.
--
-- A service declares endpoints, subscriptions and JetStream consumers; the runtime spawns a worker
-- for each, restarts it under a policy, and drains all of them at shutdown. A worker hands each
-- message to a handler as a borrowed request, whose parameters are segments of its subject, and
-- sends the handler's answer, or an error in headers, as the reply. A request may be encrypted: the
-- client seals its payload and some headers for the service's public key and signs what it sends.
-- A testing crate replaces JetStream by a deterministic simulator.
--
-- What models which part:
--
-- - Subject: nats-micro/src/subject.rs. `segment` and `subject_matches` are `segment` and
--   `subject_matches`, `segment_loop` the `while` of the former and `matches_from` the `loop` of the
--   latter; Words and Segments relate the scan to splitting; Params has `subject_param_len` and `push_subject_param`.
-- - Errors: nats-micro-shared/src/lib.rs (Framework, Transport: the two enumerations that the macro
--   `define_error_code_enum` declares) and nats-micro/src/error.rs (Response).
-- - Headers: `async_nats::HeaderMap`, as a record of operations and one of laws.
-- - Request: nats-micro/src/request.rs. The cell of a generated identifier is passed along.
-- - Response: nats-micro/src/response.rs, and the answers of `process_plain_request`,
--   `process_encrypted_request` and `respond_error` of nats-micro/src/runtime/request_worker.rs.
-- - Encryption: nats-micro/src/encryption. Crypto is the interface to the packages for X25519, HMAC,
--   XChaCha20-Poly1305, base64 and JSON, with their laws; Transcript is what a signature signs;
--   Envelope has the keys and the envelopes of mod.rs; Builder is `RequestBuilder`; Headers is
--   headers.rs; Prepare is `EncryptedRequest` of request.rs. Opening, EndToEnd and Refused join the
--   two sides.
--   Toy instantiates the interface for the tests.
-- - Testing: nats-micro-testing/src/lib.rs (EventLog, FaultPlan) and jetstream.rs (JetStream).
-- - Runtime: nats-micro/src/app/typed_config.rs and config.rs (Config); of app/typed_runtime.rs,
--   `RestartTracker`, `wait_backoff` and `effective_concurrency` (Restarts, Config), the four
--   `supervise_` functions (Supervisor), `Runtime::run` and `drain_workers` (Application); the loops of
--   runtime/request_worker.rs, subscription_worker.rs and consumer_worker.rs (Worker), and
--   `process_consumer` of the last (Delivery). Worker/Polls and Application/Events read off the polls
--   and events alone which messages are taken and which tasks end; the theorems on them compare.
-- - Contract: nats-micro/src/contract.rs, with spec.rs in Spec. Semver and Validity say what is
--   valid without the code's scans.
-- - Services: nats-micro/src/app/services.rs, the check at start of all services (Compatible) and the
--   assertion at compile time (CompileTime).
-- - Macros: nats-micro-macros/src/service. Template is the parsing of subject templates (parse.rs) and
--   the subject that a generated client builds (client.rs); Model the types of mod.rs and args.rs;
--   Paths, Classify and Arguments are classify.rs, Options and Parse the rest of parse.rs, Checks and
--   Validate validate.rs, Metadata metadata.rs, and Dispatch the generated `call` of an encrypted operation (dispatch.rs).
--   Checked, Accepted, Indexes and Policy relate them to each other and to Contract.
-- - Client: nats-micro/src/client. Client has transport.rs and `merge_headers`; Decoding, Failures and
--   Calls have the decoders, the errors and the four calls of v2.rs, Connection has mod.rs. Calls/Sealed and Calls/Token join a client, the
--   encryption, and a service's generated endpoint.
--
-- How it is modelled. A `str` and a byte slice are lists of bytes; a `usize`, `u64` or `u32` that
-- is added to keeps its wrap-around or saturation; a `Duration` and an `Instant` are numbers of
-- nanoseconds, and a duration saturates at `Duration::MAX`. A `BTreeMap` is the list of its entries
-- in key order. A mutex gives each operation of the simulator and of the logs the whole state, so
-- these are functions of the state; runs of the simulator are the relation `Step` and its closure
-- `Reach`. A panic of `expect` is a value of the result. Clock readings, random numbers and UUIDs
-- are arguments.
--
-- A worker is a function of the list of polls: a poll says what `select!` finds ready, a change of
-- the shutdown channel, a finished task, an item of the source, and `round` does what the biased
-- `select!` then does. The list may be of any length and every exit is recorded with the effects of
-- the rounds before it, so no fuel is needed; where an answer is promised (a graceful shutdown),
-- the polls that lead to it are a hypothesis on what the tasks do. Supervision, `run`, the drain
-- and the processing of a consumer's message are functions of such lists too; the drain always
-- answers, since a poll that is missing stands for one in which the deadline passes. The loop of
-- `segment` runs on fuel, the length of the subject and one more, which `segment` gives it and
-- `segment-split` shows to be enough: fuel that runs out would answer `None`.
--
-- The trees of syn are parameters, so far as the macro looks into them; what it generates is the
-- value or the function that its tokens denote. Decoding by serde_json and prost, and the builder of
-- `async_nats::ConnectOptions`, are parameters too.
--
-- What is not modelled: the parsing of attributes by syn and the generated code that only passes
-- values on, the error macro, the NATS connection itself and the part of app that registers services
-- on it, codecs and extractors, telemetry (metrics and spans, which change no state), logging,
-- deployment files, the in-process test harness, the command line, the test server, and the texts
-- of error messages where they only report. Of a rejected encrypted request the error code and the
-- request id are kept.

mod Prelude
pub mod Subject
pub mod Errors
pub mod Headers
pub mod Request
pub mod Response
pub mod Encryption
pub mod Testing
pub mod Runtime
pub mod Contract
pub mod Services
pub mod Client
pub mod Macros
