-- ===== src/Journal/Calls.antt =====
-- The calls of `Journal` (src/journal/mod.rs) that write through the writer, trim, read and clear.
use eventline.Prelude.{ℕ, max, String, Option, none, some, List, Run, ok, ◌>>=◌}
use eventline.Core.{EventKind, Outcome, Fields, Record, Scope}
use eventline.Buffer
use eventline.Buffer.{Buffer, new_buffer}
use eventline.Buffer.Records
use eventline.Buffer.Records.{Records}
use eventline.Buffer.Scopes
use eventline.Buffer.Scopes.{Scopes, BufferedScope}
use eventline.Buffer.Scopes.Exit
use eventline.Writer.{Writer, IoResult}
use eventline.Journal.{Journal, Now, record_no_write, exit_scope_no_write}

module _ {W : Type 0} (sink : Writer W) where
  -- A record for the writer, if there is one; its error is dropped.
  pub write_to : Option W → Record → Option Scope → Option W
  write_to none r scope = none
  write_to (some w) r scope = some (sink.write_record r scope w).0

  -- `Journal::record`.
  unfoldable pub record_event : Journal W → EventKind → String → Fields → Now → Run (Journal W × ℕ)
  unfolding write_to
  record_event j kind name fields now = do
    (j', id, entry, scope) ← record_no_write sink j kind name fields now
    ok (record j' { writer = write_to j'.writer entry scope }, id)

  unfoldable pub write_exit : Journal W → Option (Record × Scope) → Journal W
  unfolding write_to
  write_exit j none = j
  write_exit j (some (entry, scope)) = record j { writer = write_to j.writer entry (some scope) }

  -- `Journal::exit_scope`.
  unfoldable pub exit_scope : Journal W → ℕ → Outcome → Now → Run (Journal W × ℕ)
  unfolding write_exit
  exit_scope j scope_id outcome now = do
    (j', id, payload) ← exit_scope_no_write sink j scope_id outcome now
    ok (write_exit j' payload, id)

  flush_to : Journal W → Option W → Journal W × IoResult
  flush_to j none = (j, none)
  flush_to j (some w) = let (w', r) = sink.flush w in (record j { writer = some w' }, r)

  -- `Journal::flush`.
  unfoldable pub flush : Journal W → Journal W × IoResult
  unfolding flush_to
  flush j = flush_to j j.writer

module _ {W : Type 0} where
  -- `Journal::trim_records` and `Journal::trim_scopes`.
  unfoldable pub trim_records : Journal W → ℕ → Run (Journal W)
  trim_records j max = do
    records ← Records.trim max j.buffer.records
    ok (record j { buffer = record (j.buffer) { records = records } })

  unfoldable pub trim_scopes : Journal W → ℕ → Run (Journal W)
  trim_scopes j max = do
    scopes ← Scopes.trim max j.buffer.scopes
    ok (record j { buffer = record (j.buffer) { scopes = scopes } })

  -- `Journal::get_scope`, `Journal::scope_elapsed`, `Journal::records` and `Journal::scopes`.
  unfoldable pub get_scope : Journal W → ℕ → Run (Option Scope)
  get_scope j id = Exit.get_scope_by_id j.buffer.scopes id

  unfoldable pub scope_elapsed : Journal W → ℕ → ℕ → ℕ → Run (Option ℕ)
  scope_elapsed j id now wall = Exit.get_scope_elapsed j.buffer.scopes id now wall

  unfoldable pub records : Journal W → List Record
  records j = Records.records_snapshot j.buffer.records

  unfoldable pub scopes : Journal W → List Scope
  scopes j = Exit.scopes_snapshot j.buffer.scopes

  -- `Journal::get_record`: the lookup may build the index.
  unfoldable pub get_record : Journal W → ℕ → Run (Journal W × Option Record)
  get_record j id = do
    (records, r) ← Records.get_record_by_id j.buffer.records id
    ok (record j { buffer = record (j.buffer) { records = records } }, r)

  -- `Journal::clear`: identifiers go on.
  unfoldable pub clear : Journal W → Journal W
  clear j = record j { buffer = Buffer.clear j.buffer; current_scope = none }
