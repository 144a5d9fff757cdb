-- ===== src/Load/Lines.antt =====
-- `Entry` and `Loader` of src/replay/load.rs: lines are sorted into runs. JSON values, and what is read
-- of them, are a parameter, since they belong to another crate; a line is given without its surrounding
-- blanks, as a header or as other bytes.
use eventline.Prelude.{
  ℕ, ◌+◌, ◌⊎◌, String, Bool, false, Option, none, some, List, [], ◌∷◌, ◌++◌, inl, inr, ◌==◌, ltb,
  if◌then◌else◌, Run, ok, ◌>>=◌, unwrap, is_some, length, get_elem?, set,
}
use eventline.Core.{EventKind, Outcome, Fields, Record, RecordKind, Scope}
use eventline.Load.{
  RunBuilder, SavedRun, ReplayIssue, ReplayIssueKind, invalid_line, unsupported_version,
  inferred_run_boundary, conflicting_scope, new, same_string, add_scope, add_record,
}
use eventline.Load.Finish.{finish}

-- An entry as it is decoded. Levels and outcomes are those of the wire.
pub data Entry : Type 0 where
  scope : Scope → Entry
  event :
      (id time_ns : ℕ) (scope_id : Option ℕ) (embedded : Option Scope) (level : EventKind)
      (message : String) (fields : Fields)
      → Entry
  scope_exit :
      (id time_ns scope_id : ℕ) (embedded : Option Scope) (outcome : Outcome) (duration_ns : ℕ)
      → Entry

abbrev pub Parts : Type 0
Parts = Option Record × Option Scope

-- The check at the end of `into_parts`: an embedded scope is that of the record.
unfoldable pub checked_parts : Record → Option Scope → Option Parts
checked_parts r none = some (some r, none)
checked_parts r (some s) =
    if elim r.scope [ none ↦ false | some id ↦ id == s.id ] then some (some r, some s) else none

-- `Entry::into_parts`; nothing is the error.
unfoldable pub into_parts : Entry → Option Parts
unfolding checked_parts
into_parts (Entry.scope s) = some (none, some s)
into_parts (Entry.event id time_ns scope_id embedded level message fields) =
    checked_parts
      (record {
        id = id;
        scope = scope_id;
        time_ns = time_ns;
        kind = RecordKind.event level message fields;
      })
      embedded
into_parts (Entry.scope_exit id time_ns scope_id embedded outcome duration_ns) =
    checked_parts
      (record {
        id = id;
        scope = some scope_id;
        time_ns = time_ns;
        kind = RecordKind.scope_exit outcome duration_ns;
      })
      embedded

-- What is read of a JSON value: the version (nothing where the key is missing, `some none` where it is
-- no unsigned integer), the run identifier where it is a string, and the entry.
pub record Json (J : Type 0) : Type 0 where
  pub format_version : J → Option (Option ℕ)
  pub run_id : J → Option String
  pub entry : J → Option Entry

pub record Loader : Type 0 where
  pub runs : List RunBuilder
  pub by_id : String → Option ℕ
  pub legacy : Option ℕ
  pub headers : List String
  pub issues : List ReplayIssue

-- `Loader::default()`.
abbrev pub empty_loader : Loader
empty_loader = record { runs = []; by_id = λ id. none; legacy = none; headers = []; issues = [] }

-- `Loader::issue`.
unfoldable pub issue : Loader → Option String → ℕ → ReplayIssueKind → Loader
issue l source line kind = record l {
  issues = l.issues ++ record { source = source; line = some line; kind = kind } ∷ [];
}

-- `crate::JSONL_FORMAT_VERSION`.
abbrev pub jsonl_format_version : ℕ
jsonl_format_version = 1

module _ {J : Type 0} (json : Json J) where
  -- A missing version is 0.
  abbrev version_of : Option (Option ℕ) → Option ℕ
  version_of none = some 0
  version_of (some version) = version

  -- The run identifier that an entry of this version has; nothing where it lacks one that it needs.
  run_of : ℕ → J → Option (Option String)
  run_of version value = if version == 0 then some none else elim (json.run_id value) [
    | none ↦ none
    | some id ↦ if same_string id "" then none else some (some id)
  ]

  -- The first half of `read_line`: the run and the parts of an entry, or the issue.
  unfoldable pub decode : Option J → ReplayIssueKind ⊎ (Option String × Parts)
  unfolding run_of
  decode none = inl invalid_line
  decode (some value) = elim (version_of (json.format_version value)) [
    | none ↦ inl invalid_line
    | some version ↦
        if ltb jsonl_format_version version
        then inl unsupported_version
        else elim (run_of version value) [
          | none ↦ inl invalid_line
          | some run_id ↦ elim (json.entry value) [
            | none ↦ inl invalid_line
            | some e ↦ elim (into_parts e) [
              | none ↦ inl invalid_line
              | some parts ↦ inr (run_id, parts)
            ]
          ]
        ]
  ]

-- `self.runs.push(RunBuilder::new(run_id, source.clone()))`.
abbrev pub push_run : Loader → Option String → Option String → Loader
push_run l run_id source = record l { runs = l.runs ++ new run_id source ∷ [] }

-- A versioned entry: its run, or a new one.
unfoldable pub versioned_run : Loader → Option String → String → Loader × ℕ
versioned_run l source id = elim (l.by_id id) [
  | some i ↦ (record l { legacy = none }, i)
  | none ↦ (
    record (push_run l (some id) source) {
      legacy = none;
      by_id = λ k. if same_string id k then some (length l.runs) else l.by_id k;
    },
    length l.runs,
  )
]

-- `self.legacy.get_or_insert_with(…)`.
unfoldable pub legacy_run : Loader → Option String → Loader × ℕ
legacy_run l source = elim l.legacy [
  | some i ↦ (l, i)
  | none ↦ (record (push_run l none source) { legacy = some (length l.runs) }, length l.runs)
]

-- A repeated record identifier in an unversioned file starts another run.
unfoldable pub legacy_boundary : Loader → Option String → ℕ → Option Record → Run Loader
unfolding issue
legacy_boundary l source line r = elim l.legacy [
  | none ↦ ok l
  | some i ↦ elim r [
    | none ↦ ok l
    | some r ↦ do
      b ← unwrap (get_elem? l.runs i)
      if is_some (b.records r.id)
          then ok (record (issue l source line inferred_run_boundary) { legacy = none })
          else ok l
  ]
]

unfoldable pub choose_run :
    Loader → Option String → ℕ → Option String → Option Record → Run (Loader × ℕ)
unfolding versioned_run legacy_run legacy_boundary
choose_run l source line (some id) r = ok (versioned_run l source id)
choose_run l source line none r = do l' ← legacy_boundary l source line r; ok (legacy_run l' source)

-- The issue that a call reports, if it reports one.
abbrev pub issue_if : Loader → Option String → ℕ → Option ReplayIssueKind → Loader
issue_if l source line none = l
issue_if l source line (some kind) = issue l source line kind

unfoldable pub add_scope_if : RunBuilder → Option Scope → Run (RunBuilder × Option ReplayIssueKind)
add_scope_if b none = ok (b, none)
add_scope_if b (some s) = do
  (c, conflict) ← add_scope b s
  ok (c, if conflict then some conflicting_scope else none)

module _ (same_wire : Record → Record → Bool) where
  unfoldable pub add_record_if :
      RunBuilder → Option Record → Run (RunBuilder × Option ReplayIssueKind)
  add_record_if b none = ok (b, none)
  add_record_if b (some r) = add_record same_wire b r

  -- The parts of an entry go to the run at a place, behind the headers that wait.
  unfoldable pub add_parts : Loader → Option String → ℕ → ℕ → Parts → Run Loader
  unfolding add_scope_if add_record_if issue
  add_parts l source line i (r, s) = do
    b ← unwrap (get_elem? l.runs i)
    (c, first) ←
        add_scope_if (record b { run = record (b.run) { headers = b.run.headers ++ l.headers } }) s
    (d, second) ← add_record_if c r
    ok (
        issue_if (issue_if (record l { runs = set l.runs i d; headers = [] }) source line first)
          source line second)

  module _ {J : Type 0} (json : Json J) where
    unfoldable pub read_decoded :
        Loader → Option String → ℕ → ReplayIssueKind ⊎ (Option String × Parts) → Run Loader
    unfolding choose_run add_parts issue
    read_decoded l source line (inl kind) = ok (issue l source line kind)
    read_decoded l source line (inr (run_id, parts)) = do
      (l', i) ← choose_run l source line run_id parts.0
      add_parts l' source line i parts

    -- `Loader::read_line`; nothing for bytes that are no JSON.
    unfoldable pub read_line : Loader → Option J → Option String → ℕ → Run Loader
    unfolding decode read_decoded
    read_line l value source line = read_decoded l source line (decode json value)

    -- A line without its surrounding blanks.
    pub data Line : Type 0 where
      blank : Line
      header : String → Line
      bytes : Option J → Line

    -- The loop of `Loader::read`; `line` is the number of lines before.
    unfoldable pub read : Loader → Option String → ℕ → List Line → Run Loader
    unfolding read_line
    read l source line [] = ok l
    read l source line (blank ∷ lines) = read l source (line + 1) lines
    read l source line (header text ∷ lines) =
        read (record l { headers = l.headers ++ text ∷ []; legacy = none }) source (line + 1) lines
    read l source line (bytes value ∷ lines) = do
      l' ← read_line l value source (line + 1)
      read l' source (line + 1) lines

    -- `load_jsonl_files`, for files that could be read.
    unfoldable pub read_files : Loader → List (Option String × List Line) → Run Loader
    unfolding read
    read_files l [] = ok l
    read_files l ((source, lines) ∷ files) = do l' ← read l source 0 lines; read_files l' files

unfoldable pub finish_runs : List RunBuilder → Run (List SavedRun × List ReplayIssue)
finish_runs [] = ok ([], [])
finish_runs (b ∷ runs) = do
  (run, issues) ← finish b
  (saved, more) ← finish_runs runs
  ok (run ∷ saved, issues ++ more)

-- The headers after the last entry stand in a run of their own.
unfoldable pub trailing_run : List String → List RunBuilder
trailing_run [] = []
trailing_run (h ∷ headers) =
    let b = new none none in record b { run = record (b.run) { headers = h ∷ headers } } ∷ []

-- `Loader::finish`: the runs of a `SavedJournal` and its issues.
unfoldable pub finish_all : Loader → Run (List SavedRun × List ReplayIssue)
unfolding finish_runs trailing_run
finish_all l = do
  (saved, issues) ← finish_runs (l.runs ++ trailing_run l.headers)
  ok (saved, l.issues ++ issues)

module _ (same_wire : Record → Record → Bool) {J : Type 0} (json : Json J) where
  -- `load_jsonl_files`, for files that could be read.
  unfoldable pub load_jsonl_files :
      List (Option String × List (Line same_wire json)) → Run (List SavedRun × List ReplayIssue)
  unfolding finish_all
  load_jsonl_files files = do l ← read_files same_wire json empty_loader files; finish_all l
