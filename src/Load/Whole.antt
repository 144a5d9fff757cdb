-- ===== src/Load/Whole.antt =====
-- Loading whole files (`load_jsonl_files` of src/replay/load.rs) does not panic, whatever their lines.
use eventline.Prelude.{
  ℕ, zero, suc, ◌≡◌, String, refl, sym, ap, ◌∙◌, Bool, true, Option, none, some, List, [], ◌∷◌,
  ◌++◌, inl, inr, arith, ◌>>=◌, Returns, get_elem?, subst, Option-cases,
}
use mathlib.Core.List.{append-nil}
use eventline.Core.{Record}
use eventline.Load.{RunBuilder, SavedRun, new}
use eventline.Load.Finish.{contains}
use eventline.Load.Rooted.{position_id, Rooted}
use eventline.Load.Repair.{Finished, finish-Finished, contains-append}
use eventline.Replay.{filter_map}
use eventline.Load.Built.{new-IsBuilt}
use eventline.Load.Lines.{
  Json, empty_loader, Line, finish_runs, trailing_run, finish_all, load_jsonl_files,
}
use eventline.Load.Loading.{AllBuilt, AllBuilt-append, IsBuilt-headers, IsLoading, read_files_lem}

-- A run that can be inspected whole: the parents of every scope lead to a root, and the scope of every
-- record is there.
pub record IsComplete (run : SavedRun) : Type 0 where
  pub rooted : (j i : ℕ) → position_id j run.scopes ≡ some i → Rooted run.scopes j
  pub referred :
      (i : ℕ) (r : Record) (id : ℕ)
      → get_elem? run.records i ≡ some r
      → r.scope ≡ some id
      → (k : ℕ) × (position_id id run.scopes ≡ some k)

record_needed :
    (records : List Record) (i : ℕ) (r : Record) (id : ℕ)
    → get_elem? records i ≡ some r
    → r.scope ≡ some id
    → contains (filter_map (λ q. q.scope) records) id ≡ true
record_needed [] i r id at e = cc
record_needed (q ∷ records) zero r id at e =
    let same : q.scope ≡ some id = ground (arith, at, e) in rw same (ground arith)
record_needed (q ∷ records) (suc i) r id at e =
    let rest = record_needed records i r id at e in
    elim (Option-cases q.scope) [
      | inl outside ↦ rw outside rest
      | inr (p, inside) ↦ rw inside (ground (arith, rest))
    ]

Finished-IsComplete : (old run : SavedRun) → Finished old run → IsComplete run
Finished-IsComplete old run f = record {
  rooted = f.rooted;
  referred = λ i r id at e.
      let here =
        record_needed old.records i r id
          (ap (λ (q : SavedRun). get_elem? q.records i) (sym f.rest) ∙ at) e in
      f.there id (
        ground (
          arith,
          here,
          contains-append (filter_map (λ t. t.parent) old.scopes)
              (filter_map (λ q. q.scope) old.records) id,
        ));
}

abbrev pub AllComplete : List SavedRun → Type 0
AllComplete runs = (i : ℕ) (run : SavedRun) → get_elem? runs i ≡ some run → IsComplete run

AllComplete-cons :
    (run : SavedRun) (runs : List SavedRun)
    → IsComplete run
    → AllComplete runs
    → AllComplete (run ∷ runs)
AllComplete-cons run runs v w zero other at =
    let same : run ≡ other = ground (arith, at) in subst IsComplete same v
AllComplete-cons run runs v w (suc i) other at = w i other at

finish_runs_lem :
    (runs : List RunBuilder)
    → AllBuilt runs
    → Returns (finish_runs runs) λ (saved, issues). AllComplete saved
unfolding finish_runs
finish_runs_lem [] v = (([], []), refl, λ i run at. cc)
finish_runs_lem (b ∷ runs) v =
    let ((run, issues), done, f) = finish-Finished b (v 0 b refl).scopes_placed in
    let ((saved, more), rest, w) = finish_runs_lem runs (λ i c at. v (suc i) c at) in
    (
      (run ∷ saved, issues ++ more),
      rw (done, ◌>>=◌, rest),
      AllComplete-cons run saved (Finished-IsComplete b.run run f) w,
    )

trailing_run-AllBuilt :
    (runs : List RunBuilder) (headers : List String)
    → AllBuilt runs
    → AllBuilt (runs ++ trailing_run headers)
unfolding trailing_run
trailing_run-AllBuilt runs [] v = subst AllBuilt (sym (append-nil runs)) v
trailing_run-AllBuilt runs (h ∷ headers) v =
    let b = new none none in
    AllBuilt-append runs (record b { run = record (b.run) { headers = h ∷ headers } }) v
      (IsBuilt-headers b (h ∷ headers) (new-IsBuilt none none))

module _ (same_wire : Record → Record → Bool) {J : Type 0} (json : Json J) where
  -- Whatever lines the files have, however malformed, truncated, repeated or contradictory, and whatever
  -- JSON values decode to, loading them returns: it neither panics nor walks along a cycle for ever. In
  -- every run that it gives, the parents of every scope lead to a root and the scope of every record
  -- is there.
  pub load_jsonl_files-AllComplete :
      (files : List (Option String × List (Line same_wire json)))
      → Returns (load_jsonl_files same_wire json files) λ (runs, issues). AllComplete runs
  unfolding load_jsonl_files finish_all
  load_jsonl_files-AllComplete files =
      let start : IsLoading empty_loader = record {
        built = λ i b at. cc;
        placed = λ id i e. cc;
        current = λ i e. cc;
      } in
      let (l, run, v) = read_files_lem same_wire json empty_loader files start in
      let ((saved, issues), done, w) =
        finish_runs_lem (l.runs ++ trailing_run l.headers)
          (trailing_run-AllBuilt l.runs l.headers v.built) in
      ((saved, l.issues ++ issues), rw (run, ◌>>=◌, done), w)
