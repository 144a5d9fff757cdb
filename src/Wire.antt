-- ===== src/Wire.antt =====
-- The JSON lines of src/render.rs, `records_jsonl` of src/journal/mod.rs, and how src/replay/load.rs reads
-- an `Entry` back. A JSON text belongs to another crate: `Serde` has the texts of the values that the code
-- serializes, and what is read of a text.
pub mod Decoding
pub mod Holding
pub mod Building
pub mod RoundTrip
use eventline.Prelude.{ℕ, String, Option, none, some, List, [], ◌∷◌, ◌++◌, map, if◌then◌else◌}
use eventline.Core.{EventKind, Outcome, Fields, ExitMessages, Record, RecordKind, Scope}
use eventline.Journal.{Journal}
use eventline.Journal.Calls
use eventline.Replay.{index_scopes}
use eventline.Load.{same_string}
use eventline.Load.Lines.{Entry, Json, jsonl_format_version}

pub record JsonScope : Type 0 where
  pub id : ℕ
  pub parent : Option ℕ
  pub entered_at : ℕ
  pub exited_at : Option ℕ
  pub name : Option String
  pub exit_messages : ExitMessages

pub data JsonRecordKind : Type 0 where
  event : (level message : String) (fields : Fields) → JsonRecordKind
  scope_exit : (outcome : String) (duration_ns : ℕ) → JsonRecordKind

pub record JsonRecord : Type 0 where
  pub format_version : ℕ
  pub run_id : String
  pub id : ℕ
  pub time_ns : ℕ
  pub scope_id : Option ℕ
  pub kind : JsonRecordKind
  pub scope : Option JsonScope

-- The entry of `render_scope_jsonl`, whose `type` is always `scope`.
pub record ScopeEntry : Type 0 where
  pub format_version : ℕ
  pub run_id : String
  pub scope : JsonScope

unfoldable pub level_str_lower : EventKind → String
level_str_lower EventKind.debug = "debug"
level_str_lower EventKind.info = "info"
level_str_lower EventKind.warning = "warn"
level_str_lower EventKind.error = "error"

unfoldable pub outcome_str_lower : Outcome → String
outcome_str_lower Outcome.success = "success"
outcome_str_lower Outcome.failure = "failure"
outcome_str_lower Outcome.aborted = "aborted"

-- `JsonScope::from`.
abbrev pub json_scope : Scope → JsonScope
json_scope s = record {
  id = s.id;
  parent = s.parent;
  entered_at = s.entered_at;
  exited_at = s.exited_at;
  name = s.name;
  exit_messages = s.exit_messages;
}

abbrev json_scope_of : Option Scope → Option JsonScope
json_scope_of none = none
json_scope_of (some s) = some (json_scope s)

json_kind : RecordKind → JsonRecordKind
unfolding level_str_lower outcome_str_lower
json_kind (RecordKind.event kind name fields) =
    JsonRecordKind.event (level_str_lower kind) name fields
json_kind (RecordKind.scope_exit outcome duration) =
    JsonRecordKind.scope_exit (outcome_str_lower outcome) duration

-- `JsonRecord::new`.
unfoldable pub json_record : Record → Option Scope → String → JsonRecord
unfolding json_kind
json_record r s run_id = record {
  format_version = jsonl_format_version;
  run_id = run_id;
  id = r.id;
  time_ns = r.time_ns;
  scope_id = r.scope;
  kind = json_kind r.kind;
  scope = json_scope_of s;
}

-- What `render_scope_jsonl` serializes.
abbrev pub scope_entry : Scope → String → ScopeEntry
scope_entry s run_id = record {
  format_version = jsonl_format_version;
  run_id = run_id;
  scope = json_scope s;
}

-- `Level` and `ExitOutcome` by their names on the wire, with `warning` for `warn`, as the values they are
-- converted to.
unfoldable pub level_of : String → Option EventKind
level_of s =
    if same_string s "debug"
    then some EventKind.debug
    else (if same_string s "info"
        then some EventKind.info
        else (if same_string s "warn"
            then some EventKind.warning
            else (if same_string s "warning"
                then some EventKind.warning
                else (if same_string s "error" then some EventKind.error else none))))

unfoldable pub exit_outcome_of : String → Option Outcome
exit_outcome_of s =
    if same_string s "success"
    then some Outcome.success
    else (if same_string s "failure"
        then some Outcome.failure
        else (if same_string s "aborted" then some Outcome.aborted else none))

-- A `Scope` from the fields of its name.
abbrev pub scope_of : JsonScope → Scope
scope_of s = record {
  id = s.id;
  parent = s.parent;
  entered_at = s.entered_at;
  name = s.name;
  exited_at = s.exited_at;
  exit_messages = s.exit_messages;
}

abbrev pub embedded_of : Option JsonScope → Option Scope
embedded_of none = none
embedded_of (some s) = some (scope_of s)

-- An `Entry` from the fields of a record. An exit needs its scope.
entry_of_kind : (Fields → Fields) → JsonRecord → JsonRecordKind → Option Entry
unfolding level_of exit_outcome_of
entry_of_kind reread r (JsonRecordKind.event level message fields) = elim (level_of level) [
  | none ↦ none
  | some kind ↦
      some
        (Entry.event r.id r.time_ns r.scope_id (embedded_of r.scope) kind message (reread fields))
]
entry_of_kind reread r (JsonRecordKind.scope_exit outcome duration) =
    elim (exit_outcome_of outcome) [
      | none ↦ none
      | some o ↦ elim r.scope_id [
        | none ↦ none
        | some id ↦ some (Entry.scope_exit r.id r.time_ns id (embedded_of r.scope) o duration)
      ]
    ]

unfoldable pub entry_of : (Fields → Fields) → JsonRecord → Option Entry
unfolding entry_of_kind
entry_of reread r = entry_of_kind reread r r.kind

-- Texts, what is read of them, and the fields that reading a text gives back.
pub record Serde (J : Type 0) : Type 0 where
  pub json : Json J
  pub record_text : JsonRecord → J
  pub scope_text : ScopeEntry → J
  pub reread : Fields → Fields

-- The scope of a record among these, the first of its identifier.
abbrev pub scope_among : List Scope → Option ℕ → Option Scope
scope_among scopes none = none
scope_among scopes (some id) = index_scopes scopes id

module _ {J : Type 0} (serde : Serde J) where
  -- `render_jsonl_in_run` and `render_scope_jsonl`.
  unfoldable pub render_jsonl_in_run : Record → Option Scope → String → J
  unfolding json_record
  render_jsonl_in_run r s run_id = serde.record_text (json_record r s run_id)

  unfoldable pub render_scope_jsonl : Scope → String → J
  render_scope_jsonl s run_id = serde.scope_text (scope_entry s run_id)

  -- `records_jsonl`, on the snapshots.
  unfoldable pub lines_of : String → List Scope → List Record → List J
  unfolding render_jsonl_in_run render_scope_jsonl
  lines_of run_id scopes records =
      map (λ s. render_scope_jsonl s run_id) scopes
      ++ map (λ r. render_jsonl_in_run r (scope_among scopes r.scope) run_id) records

  unfoldable pub records_jsonl : {W : Type 0} → Journal W → List J
  unfolding lines_of
  records_jsonl j = lines_of j.run_id (Calls.scopes j) (Calls.records j)
