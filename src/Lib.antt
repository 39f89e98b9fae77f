-- ===== src/Lib.antt =====
-- repl-mcp: a model of the native server (native/src), and what makes it correct.
--
-- The server runs Python code for an MCP client. Its sessions own Python workers (sessions.rs,
-- supervisor.rs, guardian.rs), its broker calls other MCP servers on behalf of that code and keeps
-- an effect journal of the calls (broker.rs, config.rs), and its artifact store keeps files that the
-- code hands over (artifacts.rs). server.rs and main.rs put these together. This library models
-- all of them but main.rs, and of the broker not the transports.
--
-- Base and its children hold what the other modules share: tests into Bool, lists over native
-- numbers, association lists, results. Json is serde_json's Value, as far as requests are read.
--
-- Artifacts is native/src/artifacts.rs.
--   State: the store. Descriptors are their content, an atomic flag is a position in a map of flags,
--   and a job holds the position of its guard as the source holds an Arc. Host has the functions of
--   other crates as parameters: SHA256, base64, hex, UTF-8, JSON, is_absolute.
--   Reader: Reader, digest, verify. Registry: register_owner, register_run,
--   abort_unfinished_uploads, remove_owner. Retention: the eviction loop. Upload: begin, append,
--   commit, abort. Create: the import of a file. Range: lookup, read, drop, forward_payload. Save:
--   save, over a disk that is a function from paths. Dispatch: dispatch and dispatch_sync.
--   Steps: sequences of operations, which are the interleavings of jobs, each a step of its own. An
--   upload's commit is two parts, prepare_commit and finish_commit, with one step for both; Closed has
--   also the second part alone, and that of create, for jobs that are between the two.
--   Bounds, Sound, Limits: the limits. Closed: guards. Roundtrip, Torn: uploads. Pages: ranges.
--   Isolation: owners. Saved: save. Permits: the i/o permits.
--
-- Broker is native/src/broker.rs.
--   Journal: the entry of a record in dispatch_with_context, and CallRecord. Journal/Kept and
--   Journal/Closing: entry and closing. Writer: schedule_journal, journal_writer and
--   persist_journal as a step relation; Writer/Durable: its invariant; Writer/Awake: its sleepers.
--   Reload: set_journal; Reload/Settled.
--   Budget: bounded_json; Budget/Within.
--   Framing: BoundedRead, the scan of an event stream in BoundedHttpClient, and bounded_body;
--   Framing/Chunks, Framing/Stream.
--   Failures: failure_status. Transports: Broker with its registry, slots and caches, session, invalidate,
--   refresh, shutdown; Transports/Claims, Transports/Refreshed. Catalogue: tools, the pages and the
--   cache; Catalogue/Gathered, Catalogue/Pages, Catalogue/Cached. Validate: validate. Call: the call of
--   dispatch_with_context up to its request, which runs the registry, the transports, the catalogue, the
--   validator and the journal in turn; Call/Alike, Call/Checks, Call/Granted. Answer: from the peer's
--   answer to the caller's; Answer/Closed. Explain: explain; Explain/Refused. Each is one step of one
--   task: the interleaving of several is not modelled.
--
-- Config is native/src/config.rs.
--   Types: ServerConfig, OAuthConfig, Registry, and what the code reads of its environment: variables,
--   files, paths, and the parsers of other crates, as one record. Expand: the placeholders of a text;
--   Expand/Pieces, Expand/Total. Normal: the body of merge for one entry; Normal/Sane. Merge: merge and
--   record_excluded; Merge/Overlay, Merge/Origin. Load: read_document, load_at, load_project, reload;
--   Load/Granted: the servers of what is loaded. Messages that name the server are constructors without it.
--
-- Sessions is native/src/sessions.rs.
--   The manager's maps, permits and registrations as one state; open and close in the parts that
--   are atomic under the lock on the sessions, shutdown in its three.
--   Prepare: the project, the interpreter, the probe.
--   Sound: steps and their invariant; Sharing: brokers and projects; Lifecycle: open and close.
--   A client of Artifacts: register_owner and remove_owner are those of Artifacts/Registry.
--
-- Supervisor is native/src/supervisor.rs.
--   Output: collect_output and bound_execution_output, on texts as their UTF-8 bytes; Output/Cuts.
--   History: remember and the search of run; History/Kept. Slot: reserve, start_request, the end and
--   the drops of an execution guard and of a reservation, cancel, run; Slot/Ends. Execute: the gates of execute_inner and its two
--   select loops, as a list of what happens in turn; Execute/Ends. Life: execute_inner as a whole, with
--   the slot of the worker and the generation; whether a worker starts, whether a command is sent and
--   what happens while it runs are a Course. Life/Kept, Life/Generation: what a run leaves and what it
--   is sent to. Jobs: the set of started processes, which guardian.rs keeps too. Reader: the task that
--   reads a worker's frames (spawn), with the calls of a cell; Reader/Gate, Reader/Reachable: which
--   calls it lets through, and its invariant over the interleavings with runs. Forward:
--   forward_artifact.
--
-- Guardian is native/src/guardian.rs.
--   The header of a command, and the set of jobs with what `owner` kills. Handshake: the header from
--   spawn_owned to owner. Ended: what is killed, its early ends included.
--
-- Server is native/src/server.rs.
--   Tools with Tools/Inputs and Tools/Outputs: build_tools, without descriptions. Route: call_tool up
--   to the call that it makes of sessions, supervisor or artifacts, each unwrap a panic of its own; a
--   client of Sessions for the session of a call. Route/Schema: what is used of jsonschema.
--   Route/Total, Route/Sound, Route/Forwarded: panics, the session of a call, and forwardings.
--   Envelope: identify, the error flag, envelope; Envelope/Marked, Envelope/Presented. Call: call_tool
--   as a whole, over the components as an interface, whose calls may panic; Call/Served. A joined path
--   that is not UTF-8 has no text, so that json! of it is a panic.
--
-- Examples holds the theorems applied at concrete inputs.
--
-- Loops on fuel: digest_loop takes one round more than there are bytes, evict and trim one round
-- more than there are entries or records, which is enough since each round takes one away.
-- expand_loop takes one round more than the text has characters. list_pages has the source's 128 rounds.
--
-- Not modelled: what sessions.rs and the supervisor report of a session (metadata, health), the pipes,
-- signals and time limits of worker and guardian, the answers of python_health, the
-- broker's transports, main.rs and the Python side. Poisoned mutexes, the memory order of atomics, and
-- the clock are left out of what is modelled; an upload's and an entry's descriptor share no offset, as
-- all reads are positioned.
pub mod Base
pub mod Guardian
pub mod Json
pub mod Artifacts
pub mod Broker
pub mod Server
pub mod Sessions
pub mod Supervisor
pub mod Config
mod Examples
