-- ===== src/Lib.antt =====
-- CodeIsCheap records what applications send to language model providers. A gateway or a proxy
-- sidecar observes requests and responses; each one becomes a capture envelope, which the
-- capture policy attributes, scopes and redacts before anything else sees it; adapters read the
-- redacted capture, and it is stored with what they made of it. While the proxy is on, the
-- system's proxy settings are under a recovery transaction.
--
-- The parts and the files that model them:
-- - Wildcard: `wildcard_match` of crates/capture-policy/src/lib.rs, the loop that matches a path
--   with a pattern. Its state is `Cursor`, one turn of the loop is `round`, the loop is `scan`.
-- - Policy: the rest of crates/capture-policy/src/lib.rs. `Policy.Hosts` has the hosts and
--   additional hosts, `Policy.Rules` validation and scope, `Policy.Attribution` the labels of
--   applications, `Policy.Scrub` the redaction of headers and JSON bodies, `Policy.Sanitize` the
--   whole of `sanitize_envelope`.
-- - Capture: the types of crates/capture-ipc/src/lib.rs that an envelope is made of.
-- - Ipc: the socket of crates/capture-ipc/src/lib.rs. `read_frame` reads from a list of what
--   `fill_buf` gives, `receive_from_reader` is `receive_from_reader_with_transport`, and the
--   JSON parsers of the two frames are parameters.
-- - Recovery: crates/proxy-recovery/src/lib.rs. `Recovery.World` is the state: the system, the
--   file of the journal, and a list that says which of the next file and process operations
--   fail. `Recovery.Files`, `Recovery.Watchdog` and `Recovery.Session` have the functions of the
--   source; a backend is the record `ProxyBackend`, the table `Backends` is the match of
--   `restore_with_backend`, and `Recovery.FileBackend` is the backend of the source that works
--   on a file.
-- - Gateway: crates/gateway/src/capture.rs. The queue of events is a list with a capacity; the
--   handles that share the capture are the argument of its operations. `Gateway.Guard` has the
--   guards of requests and responses, which differ only in their metadata.
-- - PromptIr: crates/prompt-ir/src/model.rs, evidence.rs and validation.rs; the checks of
--   `validate` thread the ids seen and the errors found. `PromptIr.Canonical` and
--   `PromptIr.Metrics` are metrics.rs: the canonical request, and the counts, the cost and the
--   fingerprint; what the code calls is the record `Tools`.
-- - Adapters: crates/adapters/src/model.rs and registry.rs. The adapters are records of their
--   functions, a panic of an adapter is a value, and the function that adds the metrics is an
--   argument.
-- - Process: crates/process-attribution/src. `Process.Linux` reads the tables of /proc
--   (linux.rs), `Process.Windows` the rows of the system's table (windows.rs), `Process.Macos`
--   the output of lsof (macos.rs). What the system holds is an argument.
-- - Storage: crates/storage/src/model.rs and store.rs. A table is a list in the order of its
--   index (observed_at_unix_ms, capture_id), a transaction is a function that returns another
--   store or an error, and `Codec` is serde_json. `Storage.Prepare` makes the columns of a
--   capture, `Storage.Store`, `Storage.Settings` and `Storage.Pages` have the operations on
--   captures, settings and pages, `Storage.Retention` has `enforce_retention`.
-- - Core: crates/core/src/lib.rs. `Context` holds the policy, the adapters and the parameters;
--   `process_gateway_event` puts the policy, the adapters and the store together. `Core.Bodies`
--   makes fields and bodies of what the gateway saw.
-- - Text, Net, Json and Floats: strings as lists of code points with their UTF-8 bytes, their
--   numbers and lines, the parser of IP addresses of the standard library, JSON values, and
--   floating-point numbers with their comparisons.
-- - Common: shared names and lemmas. Samples: runs on small inputs.
--
-- Bounds and fuel: the loop of `wildcard_match` runs on the fuel (length of the text + 1) *
-- (length of the pattern + 1), since between two moves of the last star the loop passes over the
-- pattern at most once. The loops of `enforce_retention` run on fuel, one more than the number
-- of captures: each batch that does not end its loop deletes a capture. Digits are printed on
-- the fuel of the number and one, and the prefixes that `parse_lsof_pid` trims on the length of
-- the line, since each is not empty. A reader of pages is given its fuel. Every other loop is
-- structural. Counters of type u64 wrap around or saturate as the source has it.
--
-- Abstractions: characters are code points, of which only the ASCII ones have a lower case form.
-- An I/O error or a JSON error has no detail. The watchdog process reads its input to the end
-- before it acts, so its last part runs when the parent closes the pipe; a child whose ready
-- line could not be read counts as one that did nothing. A failure of SQLite other than of a
-- CHECK constraint is not modelled; it rolls its transaction back. usize has 64 bits, a path is
-- compared as its text, and the output of lsof is decoded already. What a process that is killed
-- in the middle of an operation leaves is not modelled, since each file is replaced as a whole.
--
-- Not modelled: the listener of the capture socket, the sidecar runtime, the HTTP server of the
-- gateway, the parsers of the single providers, the opening, backup, migrations and full-text
-- search of the storage, the desktop application with its API and user interface, and the proxy
-- settings of Windows and macOS. They are input and output, processes and presentation around
-- the parts above, or parsers of one format each. JSON parsing and printing, the hash of a
-- fingerprint, the catalog of prices, the clock, the free space of the disk, process lists and
-- the operating system's answers are parameters.
pub mod Common
pub mod Text
pub mod Wildcard
pub mod Net
pub mod Json
pub mod Capture
pub mod Ipc
pub mod Policy
pub mod Recovery
pub mod Gateway
pub mod Floats
pub mod PromptIr
pub mod Adapters
pub mod Process
pub mod Storage
pub mod Core
mod Samples
