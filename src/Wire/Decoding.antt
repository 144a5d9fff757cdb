-- ===== src/Wire/Decoding.antt =====
-- A rendered line (src/render.rs) is decoded to its run, its record and its scope (src/replay/load.rs).
use eventline.Prelude.{ℕ, ◌≡◌, refl, ◌∙◌, String, Bool, true, false, Option, none, some, arith, inr}
use eventline.Core.{EventKind, Outcome, Fields, Record, RecordKind, Scope}
use eventline.Load.{same_string}
use eventline.Load.Lines.{
  Entry, Json, Parts, decode, into_parts, checked_parts, jsonl_format_version,
}
use eventline.Wire.{
  JsonRecord, ScopeEntry, Serde, level_str_lower, outcome_str_lower, level_of, exit_outcome_of,
  json_record, json_kind, scope_entry, entry_of, entry_of_kind, scope_of, embedded_of,
  json_scope_of, render_jsonl_in_run, render_scope_jsonl,
}

-- The documented behaviour of the derives: a text is read by the names of its fields, and a `type` says
-- which entry it is.
pub record ReadsBack {J : Type 0} (serde : Serde J) : Type 0 where
  pub record_version :
      (r : JsonRecord)
      → serde.json.format_version (serde.record_text r) ≡ some (some r.format_version)
  pub record_run : (r : JsonRecord) → serde.json.run_id (serde.record_text r) ≡ some r.run_id
  pub record_entry :
      (r : JsonRecord) → serde.json.entry (serde.record_text r) ≡ entry_of serde.reread r
  pub scope_version :
      (s : ScopeEntry)
      → serde.json.format_version (serde.scope_text s) ≡ some (some s.format_version)
  pub scope_run : (s : ScopeEntry) → serde.json.run_id (serde.scope_text s) ≡ some s.run_id
  pub scope_entry :
      (s : ScopeEntry)
      → serde.json.entry (serde.scope_text s) ≡ some (Entry.scope (scope_of s.scope))

level_of-level_str_lower : (k : EventKind) → level_of (level_str_lower k) ≡ some k
unfolding level_of level_str_lower
level_of-level_str_lower EventKind.info = refl
level_of-level_str_lower EventKind.warning = refl
level_of-level_str_lower EventKind.error = refl
level_of-level_str_lower EventKind.debug = refl

exit_outcome_of-outcome_str_lower : (o : Outcome) → exit_outcome_of (outcome_str_lower o) ≡ some o
unfolding exit_outcome_of outcome_str_lower
exit_outcome_of-outcome_str_lower Outcome.success = refl
exit_outcome_of-outcome_str_lower Outcome.failure = refl
exit_outcome_of-outcome_str_lower Outcome.aborted = refl

-- A record that a text can hold: an exit names its scope.
abbrev pub on_wire : RecordKind → Option ℕ → Bool
on_wire (RecordKind.event kind name fields) scope = true
on_wire (RecordKind.scope_exit outcome duration) none = false
on_wire (RecordKind.scope_exit outcome duration) (some id) = true

abbrev reread_kind : (Fields → Fields) → RecordKind → RecordKind
reread_kind reread (RecordKind.event kind name fields) = RecordKind.event kind name (reread fields)
reread_kind reread (RecordKind.scope_exit outcome duration) = RecordKind.scope_exit outcome duration

-- The record with the fields that are read back.
abbrev pub restored : (Fields → Fields) → Record → Record
restored reread r = record r { kind = reread_kind reread r.kind }

-- The scope beside a record is the one that it names.
abbrev pub Beside : Record → Option Scope → Type 0
Beside r none = Unit
Beside r (some s) = r.scope ≡ some s.id

embedded_of-json_scope_of : (s : Option Scope) → embedded_of (json_scope_of s) ≡ s
embedded_of-json_scope_of none = refl
embedded_of-json_scope_of (some s) = refl

checked_parts_lem :
    (r : Record) (s : Option Scope) → Beside r s → checked_parts r s ≡ some (some r, s)
unfolding checked_parts
checked_parts_lem r none beside = refl
checked_parts_lem r (some s) beside = rw beside (ground arith)

parts_of_kind :
    (reread : Fields → Fields) (id time_ns : ℕ) (scope : Option ℕ) (kind : RecordKind)
    (s : Option Scope) (run_id : String)
    → on_wire kind scope ≡ true
    → let r : Record = record { id = id; scope = scope; time_ns = time_ns; kind = kind } in
      Beside r s
      → (e : Entry) × (entry_of reread (json_record r s run_id) ≡ some e)
        × (into_parts e ≡ some (some (restored reread r), s))
unfolding entry_of json_record into_parts
parts_of_kind reread id time scope (RecordKind.event k name fields) s run_id wired beside = (
  Entry.event id time scope (embedded_of (json_scope_of s)) k name (reread fields),
  rw (entry_of, json_record, json_kind, entry_of_kind, level_of-level_str_lower k),
  rw (into_parts, embedded_of-json_scope_of s) (checked_parts_lem _ s beside),
)
parts_of_kind reread id time none (RecordKind.scope_exit o duration) s run_id wired beside = cc
parts_of_kind reread id time (some at) (RecordKind.scope_exit o duration) s run_id wired beside = (
  Entry.scope_exit id time at (embedded_of (json_scope_of s)) o duration,
  rw (entry_of, json_record, json_kind, entry_of_kind, exit_outcome_of-outcome_str_lower o),
  rw (into_parts, embedded_of-json_scope_of s) (checked_parts_lem _ s beside),
)

decode_lem :
    {J : Type 0} (json : Json J) (j : J) (run_id : String) (e : Entry) (parts : Parts)
    → json.format_version j ≡ some (some jsonl_format_version)
    → json.run_id j ≡ some run_id
    → same_string run_id "" ≡ false
    → json.entry j ≡ some e
    → into_parts e ≡ some parts
    → decode json (some j) ≡ inr (some run_id, parts)
unfolding decode
decode_lem json j run_id e parts version run named entry made =
    rw (decode, version, run, named, entry, made)

module _ {J : Type 0} (serde : Serde J) (reads : ReadsBack serde) where
  -- A rendered record in a named run is decoded to that run, the record with its fields read back, and the
  -- scope beside it.
  pub decode-render_jsonl_in_run :
      (r : Record) (s : Option Scope) (run_id : String)
      → same_string run_id "" ≡ false
      → on_wire r.kind r.scope ≡ true
      → Beside r s
      → decode serde.json (some (render_jsonl_in_run serde r s run_id))
        ≡ inr (some run_id, (some (restored serde.reread r), s))
  unfolding render_jsonl_in_run json_record
  decode-render_jsonl_in_run r s run_id named wired beside =
      let (e, entry, parts) =
        parts_of_kind serde.reread r.id r.time_ns r.scope r.kind s run_id wired beside in
      let j = json_record r s run_id in
      decode_lem serde.json (serde.record_text j) run_id e (some (restored serde.reread r), s)
        (reads.record_version j) (reads.record_run j) named (reads.record_entry j ∙ entry) parts

  -- A rendered scope in a named run is decoded to that run and the scope.
  pub decode-render_scope_jsonl :
      (s : Scope) (run_id : String)
      → same_string run_id "" ≡ false
      → decode serde.json (some (render_scope_jsonl serde s run_id))
        ≡ inr (some run_id, (none, some s))
  unfolding render_scope_jsonl into_parts
  decode-render_scope_jsonl s run_id named =
      let j = scope_entry s run_id in
      decode_lem serde.json (serde.scope_text j) run_id (Entry.scope s) (none, some s)
        (reads.scope_version j) (reads.scope_run j) named (reads.scope_entry j) refl
