-- ===== src/Lib.antt =====
-- A model of the core of the codex-telegram-bridge: the Rust crates that decide what may be sent,
-- answered, approved and unlocked, without the transports around them.
--
-- Parts, by file:
--   * Workflow (rust/crates/engine/src/lib.rs): CodexWorkflowProjection. Workflow.Types holds its
--     data, Prompts, Delivery, Requests and Connection its methods under their names, each from the
--     projection to a result and the projection it leaves, on an error too. Machine drives them in
--     any order; the other modules prove. The engine crate exports the projection for adapters that
--     call its methods on every message and carry out the effects they return; the daemon of this
--     commit takes only the event projector from that crate, and the store and the TotpManager.
--   * Domain, Ports (rust/crates/domain, rust/crates/ports): entities, their checks, events, errors.
--   * Service (rust/crates/engine/src/lib.rs, rust/crates/storage-sqlite/src/lib.rs): Engine and the
--     tables it writes. The clock's moment, new identifiers, the policy, the scheduler, the gateway
--     and the error of a broken constraint are arguments. An operation that Rust writes with `?` is
--     an entry function and a `..._from` function that takes the outcome of the earlier step.
--   * Security (rust/crates/storage-sqlite/src/lib.rs, rust/crates/cli/src/security.rs): the row of
--     the write lock, recovery codes, HOTP, and the TotpManager with its leases.
--   * Control (rust/crates/storage-sqlite/src/lib.rs): the rows of control interactions and of their
--     callbacks, with the conditional updates as tests on the row that the key finds.
--   * Updates (rust/crates/storage-sqlite/src/lib.rs, rust/crates/cli/src/daemon.rs): processed
--     updates and poll offsets, and the poller that records them.
--   * Deletions (rust/crates/storage-sqlite/src/lib.rs): the table of scheduled deletions; Backoff,
--     Leases, Exclusive, Retries and Abandoned prove.
--   * Projector (rust/crates/engine/src/projector.rs): EventProjector, which the daemon feeds with the
--     events of the app-server. Reading takes fields out of JSON, Tasks and Subagents are the tasks of
--     subagents, Handlers has one function per arm of the match, Apply the projector itself, with
--     what forward_codex_events of rust/crates/cli/src/daemon.rs writes through projection_mut;
--     Histories drives it in any order; Bounds, Trimming, Turns, Terminal, Errors, Eviction and
--     Lookup prove.
--   * Telegram (rust/crates/telegram/src/lib.rs): UpdateRouter. Commands and Legacy are the command
--     vocabularies, Parsing reads updates, Authorization has the gates and Routing the arms of
--     route_effect; Permitted, Owner, Bootstrap and Names prove.
--   * Interactive (rust/crates/app-server/src/lib.rs): questions and approvals of the app-server.
--     Requests reads and answers them, Decisions has what is offered and what each becomes; Offers,
--     Answers and Replies prove.
--   * Json: serde_json as a parameter, with its readers and the values that are built. Plain is the
--     instance that the tests run on.
--   * Prelude: maps with the laws of BTreeMap, integers, texts, tests.
--
-- Conventions: a BTreeMap is a list of entries in key order, a HashMap and a table with a primary
-- key too. u64 generations are natural numbers that are only compared; i64 timestamps are integers,
-- and the saturating operations saturate at the bounds of i64. Texts are native strings; a trimmed
-- or compared byte string is its list of code points, which is the same test wherever the code
-- asks for ASCII. Loops are recursion on the list that the code iterates, so no fuel is needed, but
-- for the bound on tasks of subagents, which takes as many rounds as there are tasks: each takes one
-- task away. An event takes up to three readings of the clock, which are its arguments in order.
--
-- Not modelled: SQL failures other than broken keys, poisoned locks, the reading of JSON text,
-- sockets, files, the Telegram client, the connection to the app-server, the daemon but for what a
-- poller keeps, the configuration and the Python bridge. SHA-1, SHA-256 and the decoders of other
-- crates are parameters, as is the outcome of reading the secret.
pub mod Prelude
pub mod Workflow
pub mod Json
pub mod Plain
pub mod Projector
pub mod Ports
pub mod Updates
pub mod Control
pub mod Deletions
pub mod Telegram
pub mod Interactive
pub mod Domain
pub mod Service
pub mod Security
