-- ===== src/Wire/Holding.antt =====
-- A loader (src/replay/load.rs) that holds one run, and what adding the parts of a line does to it.
use eventline.Prelude.{
  ℕ, ◌≡◌, ◌⊎◌, refl, sym, ap, Bool, Option, none, some, String, List, [], ◌∷◌, ◌++◌, inl, inr,
  subst, ◌>>=◌, Returns, get_elem?, set,
}
use eventline.Core.{Record, Scope}
use eventline.Load.{RunBuilder, ReplayIssueKind, SavedRun, new, same_string_refl}
use eventline.Load.Built.{IsBuilt, new-IsBuilt}
use eventline.Load.Loading.{IsBuilt-headers}
use eventline.Load.Lines.{
  Loader, empty_loader, issue, issue_if, versioned_run, add_scope_if, add_record_if, add_parts,
}

-- The run of an export.
abbrev pub exported : String → List Scope → List Record → SavedRun
exported run_id scopes records = record {
  run_id = some run_id;
  headers = [];
  records = records;
  scopes = scopes;
  missing_scope_metadata = [];
}

-- A loader with one run, of this identifier, with these scopes and records and nothing else.
pub record Holds (run_id : String) (scopes : List Scope) (records : List Record) (l : Loader)
    : Type 0 where
  pub builder : RunBuilder
  pub alone : l.runs ≡ builder ∷ []
  pub named : l.by_id run_id ≡ some 0
  pub no_headers : l.headers ≡ []
  pub built : IsBuilt builder
  pub run : builder.run ≡ exported run_id scopes records

-- Before the first line there is no run.
abbrev pub Ready : String → List Scope → List Record → Loader → Type 0
Ready run_id scopes records l =
    ((l ≡ empty_loader) × (scopes ≡ []) × (records ≡ [])) ⊎ Holds run_id scopes records l

versioned_run-first :
    (source : Option String) (run_id : String)
    → ((versioned_run empty_loader source run_id).1 ≡ 0)
      × Holds run_id [] [] (versioned_run empty_loader source run_id).0
unfolding versioned_run new
versioned_run-first source run_id = (
  refl,
  record {
    builder = new (some run_id) source;
    alone = refl;
    named = rw (same_string_refl run_id);
    no_headers = refl;
    built = new-IsBuilt (some run_id) source;
    run = refl;
  },
)

versioned_run-again :
    (source : Option String) (run_id : String) (scopes : List Scope) (records : List Record)
    (l : Loader)
    → Holds run_id scopes records l
    → ((versioned_run l source run_id).1 ≡ 0)
      × Holds run_id scopes records (versioned_run l source run_id).0
unfolding versioned_run
versioned_run-again source run_id scopes records l h =
    let e : versioned_run l source run_id ≡ (record l { legacy = none }, 0) =
      rw (versioned_run, h.named) in
    (
      ap (λ (r : Loader × ℕ). r.1) e,
      subst (λ (r : Loader × ℕ). Holds run_id scopes records r.0) (sym e)
          (record {
            builder = h.builder;
            alone = h.alone;
            named = h.named;
            no_headers = h.no_headers;
            built = h.built;
            run = h.run;
          }),
    )

pub versioned_run_lem :
    (source : Option String) (run_id : String) (scopes : List Scope) (records : List Record)
    (l : Loader)
    → Ready run_id scopes records l
    → ((versioned_run l source run_id).1 ≡ 0)
      × Holds run_id scopes records (versioned_run l source run_id).0
versioned_run_lem source run_id scopes records l (inl (fresh, no_scopes, no_records)) =
    rw (fresh, no_scopes, no_records) (versioned_run-first source run_id)
versioned_run_lem source run_id scopes records l (inr h) =
    versioned_run-again source run_id scopes records l h

-- Issues leave the runs alone.
issue_if-Holds :
    (run_id : String) (scopes : List Scope) (records : List Record) (l : Loader)
    (source : Option String) (line : ℕ) (kind : Option ReplayIssueKind)
    → Holds run_id scopes records l
    → Holds run_id scopes records (issue_if l source line kind)
unfolding issue
issue_if-Holds run_id scopes records l source line none h = h
issue_if-Holds run_id scopes records l source line (some kind) h = record {
  builder = h.builder;
  alone = h.alone;
  named = h.named;
  no_headers = h.no_headers;
  built = h.built;
  run = h.run;
}

-- A builder of this run.
abbrev pub Builds : String → List Scope → List Record → RunBuilder → Type 0
Builds run_id scopes records b = IsBuilt b × (b.run ≡ exported run_id scopes records)

module _ (same_wire : Record → Record → Bool) (run_id : String) where
  pub add_parts-Holds :
      (scopes scopes' : List Scope) (records records' : List Record) (l : Loader)
      (source : Option String) (line : ℕ) (r : Option Record) (s : Option Scope)
      → Holds run_id scopes records l
      → ((b : RunBuilder)
          → Builds run_id scopes records b
          → Returns (add_scope_if b s) λ (c, kind). Builds run_id scopes' records c)
      → ((c : RunBuilder)
          → Builds run_id scopes' records c
          → Returns (add_record_if same_wire c r) λ (d, kind). Builds run_id scopes' records' d)
      → Returns (add_parts same_wire l source line 0 (r, s)) (Holds run_id scopes' records')
  unfolding add_parts
  add_parts-Holds scopes scopes' records records' l source line r s h adds keeps =
      let b = h.builder in
      let b' = record b { run = record (b.run) { headers = b.run.headers ++ l.headers } } in
      let same : b'.run ≡ exported run_id scopes records = rw (h.run, h.no_headers) in
      let ((c, first), run, w) =
        adds b' (IsBuilt-headers b (b.run.headers ++ l.headers) h.built, same) in
      let ((d, second), run', (built, made)) = keeps c w in
      let k = record l { runs = set l.runs 0 d; headers = [] } in
      let u : Holds run_id scopes' records' k = record {
        builder = d;
        alone = ap (λ runs. set runs 0 d) h.alone;
        named = h.named;
        no_headers = refl;
        built = built;
        run = made;
      } in
      let at : get_elem? l.runs 0 ≡ some b = ap (λ runs. get_elem? runs 0) h.alone in
      (
        issue_if (issue_if k source line first) source line second,
        rw (at, ◌>>=◌, run, run'),
        issue_if-Holds run_id scopes' records' (issue_if k source line first) source line second
            (issue_if-Holds run_id scopes' records' k source line first u),
      )
