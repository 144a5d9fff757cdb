-- ===== src/Lib.antt =====
-- A verification library for eventline, an in-process event journal with scopes.
--
-- The program. A `Journal` (src/journal/mod.rs) hands out identifiers of scopes and records, keeps
-- the current scope, stores both in a `Buffer` (src/journal/buffer.rs), and passes them on to an
-- optional `Writer` (src/journal/writer.rs). The types stand in src/core; a `ScopeGuard`
-- (src/core/scope.rs) leaves a scope when it is dropped. The global runtime (src/runtime/mod.rs) shares
-- one journal among threads that have a stack of scopes each, trims it from time to time, and filters
-- what it writes by level. Saved files are loaded into runs (src/replay/load.rs) that are queried
-- (src/replay.rs).
--
-- The files.
--   Prelude: names, lists, tests, and `Run`, the result of code that may panic.
--   Core: src/core/event_kind.rs, outcome.rs, value.rs, record.rs and scope.rs; FieldMap has
--   src/journal/fields.rs and the conversions into `Value`, Latest what a key has.
--   Buffer/Positions: the index `HashMap<Id, Position>` that both stores keep, with `note` for its
--   `entry(..).and_modify(..).or_insert(..)`.
--   Buffer/Records: `Records` and the record half of `Buffer`. Sound has the invariant, Trim the
--   trimming, Vector the refinement to a plain vector.
--   Buffer/Scopes: `Scopes` with its vacant slots, and in Exit the scope half of `Buffer`. Slots, Sound,
--   Evict, Trim, Update and Closing hold the lemmas, Vector the refinement to a plain vector.
--   Writer: the trait `Writer` as a record of functions on the state of a sink; Multi has `MultiWriter`,
--   Rotation src/journal/rotation.rs with its effect in Shifted, Rotating `RotatingFileWriter` with its sizes in
--   Limits, a failed rotation in Reopening and the comparison with a plain file in Unrotated, Plain `FileWriter`
--   and `StdoutWriter`, Diagnostics src/journal/diagnostics.rs, and Background
--   `AsyncWriter`: Order, Ready, Delivery, Lossy and Flushing follow a message from the caller to the sink.
--   Journal: `Journal` and the calls that enter, record and exit; Calls has those that write, trim, read
--   and clear, and Guard has `ScopeGuard`. Valid has the invariant, Entries, Exits, Steps and Session keep it,
--   Finding, Crossing and Nesting are about nested use, Leaving about guards.
--   Replay: the queries of src/replay.rs, with Index on `ReplayIndex` and Slowest on `slowest_scopes`.
--   Load: `RunBuilder` of src/replay/load.rs; Finish has its `finish`, and Lines has `Entry`, `Loader` and
--   `load_jsonl_files`. Rooted, Walk and Repair are about the repair of cycles with Chains of parent
--   links, Placeholders about the scopes that `finish` adds, Built and Appending about adding, Loading and Whole about whole files, and Unfinished has `unfinished_scopes`.
--   Wire: the JSON lines of src/render.rs and `records_jsonl`; Decoding reads one line, Holding,
--   Building and RoundTrip an export.
--   Render: the lines for people of src/render.rs, with Order on fields and Durations on durations.
--   Runtime: the scope calls, `emit` and `poll` of src/runtime/mod.rs and scope_context.rs. Levels has
--   src/runtime/log_level.rs and `Config`, Filtered the filtering writer, Threads the single calls
--   and their sections, Sections what other threads may do between two of them and Gaps what that leaves,
--   Between one call and Interleaving nested work of a thread among others, Contexts the stacks of futures,
--   Guards `RuntimeScopeGuard` of src/core/scope.rs. Header has src/runtime/run_header.rs. Outputs
--   has the state of the outputs, Equality its `==` on configurations, Update `update_writers` and `build_writers` with their filters in Filters and
--   their outcome in Consistent, Settings the calls over it and `Setup` of src/configure.rs, with sequences of them
--   in History.
--   Tests: runs on concrete inputs.
--
-- Conventions. Identifiers and counters are natural numbers; a `fetch_add` on an `AtomicU64` wraps at 2 ^
-- 64. An addition or a subtraction on `usize` that leaves the range is `panic`, as are `unwrap` on `None`
-- and an index out of range: that is a debug build, and code that is shown to return behaves the same in a
-- release build. A lock of a `Buffer` is held for one call, so that calls on its clones are one sequence
-- of steps. A call of the runtime takes its locks several times: each section is a function, the call is their
-- sequence, and Interleaving puts sections of other threads between them; elsewhere a call is one step. The readings of the clocks are arguments. A hash map is a function from keys, since only its keys
-- are asked for, or an association list for fields, which are listed; a `BTreeSet` is an ascending list.
-- Loops are structural recursion on the sequence that they consume, but for the walk along parents in
-- `finish`, whose fuel is one more than the number of scopes; running out of it is `panic`, and is shown
-- not to happen; and for the digits of a number, whose fuel is 20, enough below 2 ^ 64. A capacity is no
-- part of a value.
--
-- A denial by the operating system is an argument of the call that meets it, and so is whether a writer
-- panics. The one client of a background writer and its worker take turns: a client that waits lets the worker take
-- messages until it need not wait. The size of a log is a `u64`: its counter wraps at 2 ^ 64, and the test against
-- the limit saturates.
--
-- Not modelled: the text of JSON, of a timestamp, of a float and of a quoted string, and the buffer of the
-- standard output, which rest on other code; the scope forest of replay; the futures of
-- `scope_async` but for their polls and their guard; macros and the adapters to other crates, which only call
-- the above. Opening an output is a parameter of `build_writers`.
pub mod Prelude
pub mod Core
pub mod Buffer
pub mod Writer
pub mod Journal
pub mod Tests
pub mod Replay
pub mod Load
pub mod Runtime
pub mod Wire
pub mod Render
