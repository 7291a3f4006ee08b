-- ===== src/Lib.antt =====
-- Apate is an SSH honeypot: a session's commands run against a simulated filesystem that is kept in
-- Redis and served over FUSE, files are written by a language model when they are first read, and
-- everything a session does is audited.
--
-- The parts and their files. Paths of the program are from the repository's root.
--
-- * The filesystem, Core. Its state is one session's namespace of Redis keys (Core/Namespace). The
--   Lua scripts of src/chronos/core/lua change the directory tree (Core/Scripts), the methods of
--   src/chronos/core/state.py call them and raise (Core/State) and make a new session's tree from the
--   profile's manifest (Core/State/Setup), src/chronos/core/content.py updates the bytes of files
--   under optimistic locking (Core/Content). A Redis script is one step;
--   a WATCH/EXEC round is a read, a possible disturbance by another client, and a write. The
--   disturbances are given as the namespaces that they leave, so that every interleaving is one list.
-- * src/chronos/core/scoped_redis.py keeps the sessions' keys apart (Core/Scoped), and
--   src/chronos/core/session_cleanup.py with the mount's reaper deletes those of ended sessions
--   (Core/Cleanup).
-- * src/chronos/core/audit_spool.py and the worker of src/chronos/core/persistence.py carry the audit
--   events to PostgreSQL (Core/Audit); persistence.py also keeps each session's evidence there
--   (Core/Evidence).
-- * src/chronos/intelligence/inference.py asks the model behind a circuit breaker
--   (Intelligence/Breaker) and reads its streamed answer (Intelligence/Stream), and
--   src/chronos/intelligence/orchestrator.py generates a file's content under a lease and commits it
--   (Intelligence/Generation), in a pool of workers with slots and futures (Intelligence/Workers). It
--   meets the updates of Core/Content in the lease and the revision of a file.
--   src/chronos/intelligence/artifact_policy.py says what a file should hold (Intelligence/Policy),
--   and src/chronos/intelligence/validator.py what may be committed (Intelligence/Validator). The
--   generation takes the answer of the model, the policy and the verdict as arguments.
-- * src/chronos/gateway/shell_parser.py parses a command line (Gateway/Parser), and
--   src/chronos/gateway/dispatcher.py resolves paths, keeps the variables (Gateway/Environment) and
--   runs the tree that the parser made (Gateway/Dispatcher).
-- * src/chronos/watcher/event_processor.py scores the audit events (Watcher/Events),
--   src/chronos/skills/command_analyzer.py the commands (Skills/Commands),
--   src/chronos/skills/threat_library.py holds the signatures of known attacks (Skills/Threats), and
--   src/chronos/skills/skill_detector.py rates the attacker (Skills/Detector).
-- * src/chronos/watcher/log_streamer.py polls the audit log and hands each row to its subscribers
--   (Watcher/Streamer). One of them is src/chronos/watcher/evidence_collector.py (Watcher/Collector),
--   which keeps each session's evidence with the id of the last row taken in.
-- * src/chronos/interface/fuse.py serves the filesystem to the kernel: each callback finds the
--   caller's session and runs the methods of Core/State and Core/Content on its namespace
--   (Interface/Fuse).
-- * src/chronos/simulation/event_bus.py runs the subscribers of an event by priority
--   (Simulation/Bus), and src/chronos/simulation/services move with the ticks of the world
--   (Simulation/Services).
--
-- Prelude holds the types and lemmas that all share, over the native numbers, with the splitting and
-- joining of texts in Prelude/Words, and Dict the dictionaries, which stand for Python's dicts and for
-- Redis hashes, sets and key spaces; Dict/Weights adds up a measure of their values.
--
-- Functions keep the names of the methods they model, less a leading underscore. Errors are values:
-- Result with an errno, Option, or the parser's own. Times are whole numbers. A file's bytes are
-- numbers below 256.
--
-- Fuel and bounds. Two functions run on fuel: `rounds`, whose 32 is the program's own bound, and
-- `take_lines`, whose rounds are the bytes pending, of which each line takes at least one. The other
-- loops are recursion on a list. The limits (1 MiB, 16 MiB, 10,000 inodes, 64 KiB, 60
-- generations a minute) are the program's.
--
-- Parameters. hashlib.sha256 is a function `digest`; theorems that need it assume that digests are
-- not empty and, where two contents meet, that different contents have different digests. Regular
-- expressions, str.lower, the decoding of output, the operating system's answers about paths, the
-- clock, the random draws and jitter, and the UUIDs are arguments too.
--
-- Tests modules hold runs on concrete data and an instance of each result.
--
-- Not modelled: the SSH transport, containment, metrics, CSV and report output, which are input and
-- output; the SQL schema; the text of prompts and rendered files; the shell commands that go through
-- the operating system (ls, cat, cp and the like); the tokens that shlex makes of a line; the JSON of
-- a line, of which the value is given; threads, whose interleavings are given as sequences of steps;
-- and the Rust dashboard.
pub mod Prelude
pub mod Dict
pub mod Core
pub mod Intelligence
pub mod Gateway
pub mod Skills
pub mod Watcher
pub mod Interface
pub mod Simulation
