-- ===== src/Journal.antt =====
-- `Journal` of src/journal/mod.rs: identifiers, the current scope, the buffer and the writer. The
-- readings of the clocks are an argument; identifiers are `u64` counters, which wrap.
pub mod Calls
pub mod Guard
pub mod Leaving
pub mod Ids
pub mod Valid
pub mod Entries
pub mod Exits
pub mod Finding
pub mod Crossing
pub mod Nesting
pub mod Steps
pub mod Session
use eventline.Prelude.{
  ℕ, zero, suc, ◌+◌, ◌-◌, ◌≤◌, ◌<◌, ◌*◌, ◌/◌, ◌%◌, ◌^◌, min, max, ◌≡◌, ◌⊎◌, ◌≢◌, ◌↔◌, not, ◌||◌,
  String, is_none, or_else, refl, sym, ap, ◌∙◌, Bool, true, false, Option, none, some, List, [],
  ◌∷◌, ◌++◌, inl, inr, map, arith, ◌==◌, ltb, leb, if◌then◌else◌, Run, ok, panic, ◌>>=◌, unwrap,
  Returns, usize_max, add_usize, sub_usize, add_usize_lem, sub_usize_lem, checked_add, is_none_or,
  is_some, length, length-append, length-set, length-drop, get_elem?, set, filter, ◌&&◌, position,
  find?-position, position-lt-length, subst, find?, drop, HashMap, insert, remove, no_keys,
  Option-cases, Bool-cases, ==_iff,
}
use eventline.Core.{
  EventKind, Outcome, Fields, RecordKind, event, scope_exit, Record, ExitMessages, no_messages,
  Scope,
}
use eventline.Buffer
use eventline.Buffer.{Buffer, new_buffer}
use eventline.Buffer.Records
use eventline.Buffer.Records.{Records}
use eventline.Buffer.Scopes
use eventline.Buffer.Scopes.{Scopes, BufferedScope}
use eventline.Buffer.Scopes.Exit
use eventline.Writer.{Writer, IoResult}

-- The readings of the monotonic clock and of the wall clock.
pub record Now : Type 0 where
  pub instant : ℕ
  pub millis : ℕ
  pub nanos : ℕ

pub record Journal (W : Type 0) : Type 0 where
  pub run_id : String
  pub buffer : Buffer
  pub writer : Option W
  pub next_scope_id : ℕ
  pub next_record_id : ℕ
  pub current_scope : Option ℕ

-- `fetch_add(1)` on an `AtomicU64`.
abbrev pub next_id : ℕ → ℕ
next_id n = (n + 1) % 2 ^ 64

-- `utils::duration_nanos`.
unfoldable pub duration_nanos : ℕ → ℕ
duration_nanos d = if leb d usize_max then d else usize_max

-- A scope as it is entered, with its clock started.
abbrev pub fresh_scope : ℕ → Option String → Option ℕ → Now → BufferedScope
fresh_scope id name parent now = record {
  scope = record {
    id = id;
    parent = parent;
    entered_at = now.millis;
    name = name;
    exited_at = none;
    exit_messages = no_messages;
  };
  clock = some (record { started_at = now.instant; finished = none });
}

-- `Journal::new`, with the run identifier that was drawn.
unfoldable pub new : {W : Type 0} → String → Journal W
new run_id = record {
  run_id = run_id;
  buffer = new_buffer;
  writer = none;
  next_scope_id = 0;
  next_record_id = 0;
  current_scope = none;
}

-- `if Some(scope_id) == self.current_scope { self.current_scope = scope.parent; }`
unfoldable pub leave : Option ℕ → ℕ → Option ℕ → Option ℕ
leave none id parent = none
leave (some c) id parent = if id == c then parent else some c

-- The exit record of a scope that was just closed.
unfoldable pub exit_record : ℕ → ℕ → Outcome → ℕ → Now → Record
exit_record id scope_id outcome elapsed now = record {
  id = id;
  scope = some scope_id;
  time_ns = now.nanos;
  kind = scope_exit outcome (duration_nanos elapsed);
}

-- `scope_id.and_then(|sid| self.buffer.get_scope_by_id(sid))`
scope_in : Buffer → Option ℕ → Run (Option Scope)
scope_in b none = ok none
scope_in b (some id) = Exit.get_scope_by_id b.scopes id

module _ {W : Type 0} (sink : Writer W) where
  -- `write_scope` for every scope of a snapshot; errors are dropped.
  write_scopes : List Scope → W → W
  write_scopes [] w = w
  write_scopes (s ∷ scopes) w = write_scopes scopes (sink.write_scope s w).0

  -- `Journal::set_writer`.
  unfoldable pub set_writer : Journal W → W → Journal W
  unfolding write_scopes
  set_writer j w =
      let w' = sink.set_run_id j.run_id w in
      record j {
        writer = some (
            if sink.wants_scope_metadata w'
            then write_scopes (Exit.scopes_snapshot j.buffer.scopes) w'
            else w');
      }

  -- `Journal::write_scope_metadata`; `expect` panics where the scope is not retained.
  write_metadata_to : Option W → Journal W → ℕ → Run (Journal W)
  write_metadata_to none j id = ok j
  write_metadata_to (some w) j id =
      if sink.wants_scope_metadata w
      then (do
        found ← Exit.get_scope_by_id j.buffer.scopes id
        scope ← unwrap found
        ok (record j { writer = some (sink.write_scope scope w).0 }))
      else ok j

  unfoldable pub write_scope_metadata : Journal W → ℕ → Run (Journal W)
  unfolding write_metadata_to
  write_scope_metadata j id = write_metadata_to j.writer j id

  -- The part that the two ways to enter a scope share: the identifier, the scope, the metadata.
  unfoldable pub open_scope : Journal W → Option String → Option ℕ → Now → Run (Journal W × ℕ)
  open_scope j name parent now = do
    let id = j.next_scope_id
    scopes ← Scopes.push j.buffer.scopes (fresh_scope id name parent now)
    j' ←
        write_scope_metadata
          (record j {
            next_scope_id = next_id j.next_scope_id;
            buffer = record (j.buffer) { scopes = scopes };
          })
          id
    ok (j', id)

  -- `Journal::enter_scope_with_parent`.
  unfoldable pub enter_scope_with_parent : Journal W → String → Option ℕ → Now → Run (Journal W × ℕ)
  enter_scope_with_parent j name parent now = open_scope j (some name) parent now

  -- `Journal::enter_scope`.
  unfoldable pub enter_scope : Journal W → String → Now → Run (Journal W × ℕ)
  enter_scope j name now = do
    (j', id) ← enter_scope_with_parent j name j.current_scope now
    ok (record j' { current_scope = some id }, id)

  -- `Journal::enter_scope_unnamed`.
  unfoldable pub enter_scope_unnamed : Journal W → Option ℕ → Now → Run (Journal W × ℕ)
  enter_scope_unnamed j parent now = do
    (j', id) ← open_scope j none (or_else parent j.current_scope) now
    ok (record j' { current_scope = some id }, id)

  -- `Journal::set_scope_exit_messages`.
  unfoldable pub set_scope_exit_messages : Journal W → ℕ → ExitMessages → Run (Journal W × Bool)
  set_scope_exit_messages j id msgs = do
    (scopes, r) ← Exit.set_scope_exit_messages j.buffer.scopes id msgs
    ok (record j { buffer = record (j.buffer) { scopes = scopes } }, r)

  -- `Journal::record_no_write_in_scope`.
  unfoldable pub record_no_write_in_scope :
      Journal W
      → EventKind
      → String
      → Fields
      → Option ℕ
      → Now
      → Run (Journal W × ℕ × Record × Option Scope)
  unfolding scope_in
  record_no_write_in_scope j kind name fields scope_id now = do
    let id = j.next_record_id
    let entry : Record = record {
      id = id;
      scope = scope_id;
      time_ns = now.nanos;
      kind = event kind name fields;
    }
    scope ← scope_in j.buffer scope_id
    records ← Records.push j.buffer.records entry
    ok (
      record j {
        next_record_id = next_id j.next_record_id;
        buffer = record (j.buffer) { records = records };
      },
      id,
      entry,
      scope,
    )

  -- `Journal::record_no_write`.
  unfoldable pub record_no_write :
      Journal W → EventKind → String → Fields → Now → Run (Journal W × ℕ × Record × Option Scope)
  record_no_write j kind name fields now =
      record_no_write_in_scope j kind name fields j.current_scope now

  -- The branches of `exit_scope_no_write`: the scope was closed just now, or not.
  close_with :
      Journal W
      → ℕ
      → ℕ
      → Outcome
      → Now
      → Option (Scope × ℕ)
      → Run (Journal W × ℕ × Option (Record × Scope))
  unfolding leave exit_record
  close_with j id scope_id outcome now none = ok (j, id, none)
  close_with j id scope_id outcome now (some (scope, elapsed)) = do
    let entry = exit_record id scope_id outcome elapsed now
    records ← Records.push j.buffer.records entry
    ok (
      record j {
        buffer = record (j.buffer) { records = records };
        current_scope = leave j.current_scope scope_id scope.parent;
      },
      id,
      some (entry, scope),
    )

  -- `Journal::exit_scope_no_write`.
  unfoldable pub exit_scope_no_write :
      Journal W → ℕ → Outcome → Now → Run (Journal W × ℕ × Option (Record × Scope))
  unfolding close_with
  exit_scope_no_write j scope_id outcome now = do
    (scopes, closed) ← Exit.finalize_scope_exit_at j.buffer.scopes scope_id now.millis now.instant
    close_with
        (record j {
          next_record_id = next_id j.next_record_id;
          buffer = record (j.buffer) { scopes = scopes };
        })
        j.next_record_id scope_id outcome now closed
