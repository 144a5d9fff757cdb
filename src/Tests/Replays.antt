-- ===== src/Tests/Replays.antt =====
-- Concrete snapshots and saved files (src/replay.rs and src/replay/load.rs).
use eventline.Prelude.{
  ℕ, min, ◌≡◌, Bool, true, false, Option, none, some, List, [], ◌∷◌, ◌++◌, arith, ◌==◌, Returns,
  length, find?, insert, no_keys,
}
use mathlib.Core.List.{Permᴰ}
use eventline.Core.{failure, Record, scope_exit, info, Scope, no_messages}
use eventline.Replay
use eventline.Replay.{ScopeOutcome, scope_outcomes, slowest_scopes, records_for_scope}
use eventline.Replay.Index.{new-snapshot}
use eventline.Replay.Slowest.{Descends, lasting, slowest_scopes-Descends}
use eventline.Load.{RunBuilder, SavedRun, new}
use eventline.Load.Finish.{finish}
use eventline.Load.Repair.{Finished, finish-Finished}
use eventline.Load.Lines.{Entry, Json, Line, blank, header, bytes, load_jsonl_files}
use eventline.Load.Rooted.{IsIndexed}
use eventline.Load.Unfinished.{unfinished_scopes, unfinished_scopes-scope_outcomes}
use eventline.Prelude.{get_elem?, refl}
use eventline.Replay.{collect_outcomes, outcome_of, index_scopes}
use eventline.Load.Whole.{AllComplete, load_jsonl_files-AllComplete}
use eventline.Load

abbrev pub some_scope : ℕ → Option ℕ → Scope
some_scope id parent = record {
  id = id;
  parent = parent;
  entered_at = 1;
  name = none;
  exited_at = none;
  exit_messages = no_messages;
}

abbrev exit_of_scope : ℕ → ℕ → ℕ → Record
exit_of_scope id scope duration = record {
  id = id;
  scope = some scope;
  time_ns = 0;
  kind = scope_exit failure duration;
}

abbrev records : List Record
records =
    exit_of_scope 0 7 5 ∷ exit_of_scope 1 8 9 ∷ exit_of_scope 2 7 6 ∷ exit_of_scope 3 99 1 ∷ []

abbrev scopes : List Scope
scopes = some_scope 7 none ∷ some_scope 8 (some 7) ∷ some_scope 7 (some 8) ∷ []

new-snapshot_example :
    let ix = Replay.new records scopes in
    (Replay.scope ix 7 ≡ find? (λ s. s.id == 7) scopes)
    × (Replay.get_record ix 7 ≡ find? (λ r. r.id == 7) records)
    × (Replay.indexed_for_scope ix 7 ≡ records_for_scope records 7)
    × (Replay.indexed_outcomes ix ≡ scope_outcomes records scopes)
new-snapshot_example = new-snapshot records scopes 7

slowest_scopes-Descends_example :
    (length (slowest_scopes records scopes 2) ≡ min 2 (length (scope_outcomes records scopes)))
    × ((rest : List ScopeOutcome) × Permᴰ
          (slowest_scopes records scopes 2 ++ rest)
          (scope_outcomes records scopes)
        × Descends (slowest_scopes records scopes 2 ++ rest)
        × ((d : ℕ)
            → lasting d (slowest_scopes records scopes 2 ++ rest)
              ≡ lasting d (scope_outcomes records scopes)))
slowest_scopes-Descends_example = slowest_scopes-Descends records scopes 2

-- Two scopes that are parents of each other, and a record of a scope that is lost.
abbrev cyclic : RunBuilder
cyclic = record {
  run = record {
    run_id = some "r";
    headers = [];
    records = exit_of_scope 0 9 5 ∷ [];
    scopes = some_scope 7 (some 8) ∷ some_scope 8 (some 7) ∷ [];
    missing_scope_metadata = [];
  };
  source = none;
  records = insert no_keys 0 0;
  scopes = insert (insert no_keys 8 1) 7 0;
  outcomes = no_keys;
}

cyclic-IsIndexed : IsIndexed cyclic.scopes cyclic.run.scopes
cyclic-IsIndexed id = ground arith

finish-Finished_example : Returns (finish cyclic) λ (run, issues). Finished cyclic.run run
finish-Finished_example = finish-Finished cyclic cyclic-IsIndexed

abbrev never_same : Record → Record → Bool
never_same a b = false

abbrev always_same : Record → Record → Bool
always_same a b = true

-- A builder that has the record.
abbrev with_exit : RunBuilder
with_exit = record (new none none) {
  records = insert no_keys 0 0;
  run = record ((new none none).run) { records = exit_of_scope 0 7 5 ∷ [] };
}

-- Values that are entries of one run of version 1.
abbrev json : Json Entry
json = record { format_version = λ e. some (some 1); run_id = λ e. some "r"; entry = λ e. some e }

abbrev lines : List (Line never_same json)
lines =
    header "== run =="
    ∷ bytes (some (Entry.scope (some_scope 7 (some 8))))
    ∷ blank
    ∷ bytes none
    ∷ bytes (some (Entry.scope (some_scope 8 (some 7))))
    ∷ bytes (some (Entry.event 0 1 (some 9) none info "m" none))
    ∷ []

load_jsonl_files-AllComplete_example :
    Returns
      (load_jsonl_files never_same json ((some "a", lines) ∷ []))
      λ (runs, issues). AllComplete runs
load_jsonl_files-AllComplete_example =
    load_jsonl_files-AllComplete never_same json ((some "a", lines) ∷ [])

-- A run of the snapshot above, and its first outcome.
abbrev saved : SavedRun
saved = record {
  run_id = none;
  headers = [];
  records = records;
  scopes = scopes;
  missing_scope_metadata = [];
}

abbrev first : ScopeOutcome
first = record { scope = some_scope 7 none; outcome = failure; duration_ns = 5 }

first_outcome : get_elem? (scope_outcomes records scopes) 0 ≡ some first
unfolding scope_outcomes collect_outcomes outcome_of index_scopes
first_outcome = refl

unfinished_scopes-scope_outcomes_example : find? (λ s. s.id == 7) (unfinished_scopes saved) ≡ none
unfinished_scopes-scope_outcomes_example =
    unfinished_scopes-scope_outcomes saved 0 first first_outcome
