-- ===== src/Tests/Wires.antt =====
-- A concrete export of a journal (src/journal/mod.rs), read back (src/replay/load.rs).
use eventline.Prelude.{ℕ, ◌⊎◌, refl, String, Option, some, [], ◌∷◌, map, inl, inr, Returns, false}
use eventline.Journal.Calls
use eventline.Load.Lines.{Entry, bytes, load_jsonl_files}
use eventline.Wire.{JsonRecord, ScopeEntry, Serde, entry_of, scope_of, records_jsonl}
use eventline.Wire.Decoding.{ReadsBack, restored}
use eventline.Wire.RoundTrip.{LoadsRun, load-records_jsonl}
use eventline.Tests.Journals.{busy, busy-IsValid, busy-AllOnWire}

-- A text is what it was made of.
abbrev Text : Type 0
Text = JsonRecord ⊎ ScopeEntry

abbrev version_in : Text → Option (Option ℕ)
version_in (inl r) = some (some r.format_version)
version_in (inr s) = some (some s.format_version)

abbrev run_in : Text → Option String
run_in (inl r) = some r.run_id
run_in (inr s) = some s.run_id

abbrev entry_in : Text → Option Entry
entry_in (inl r) = entry_of (λ fields. fields) r
entry_in (inr s) = some (Entry.scope (scope_of s.scope))

abbrev serde : Serde Text
serde = record {
  json = record { format_version = version_in; run_id = run_in; entry = entry_in };
  record_text = inl;
  scope_text = inr;
  reread = λ fields. fields;
}

serde-ReadsBack : ReadsBack serde
serde-ReadsBack = record {
  record_version = λ r. refl;
  record_run = λ r. refl;
  record_entry = λ r. refl;
  scope_version = λ s. refl;
  scope_run = λ s. refl;
  scope_entry = λ s. refl;
}

load-records_jsonl_example :
    Returns
      (load_jsonl_files
        (λ q r. false)
        serde.json
        ((some "log", map (λ t. bytes (some t)) (records_jsonl serde busy)) ∷ []))
      (λ (runs, issues).
        LoadsRun busy.run_id
          (Calls.scopes busy)
          (map (restored serde.reread) (Calls.records busy))
          runs)
load-records_jsonl_example =
    load-records_jsonl (λ q r. false) serde serde-ReadsBack busy (some "log") busy-IsValid
      busy-AllOnWire.0 busy-AllOnWire.1
