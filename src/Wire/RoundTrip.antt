-- ===== src/Wire/RoundTrip.antt =====
-- The lines that a journal exports (src/journal/mod.rs) are loaded (src/replay/load.rs) as one run with its
-- scopes and records.
use eventline.Prelude.{
  ℕ, suc, ◌+◌, ◌≡◌, ◌⊎◌, refl, sym, ap, Bool, true, false, Option, none, some, String, List, [],
  ◌∷◌, ◌++◌, inl, inr, subst, ◌>>=◌, Returns, map,
}
use mathlib.Core.List.{append-nil, append_assoc}
use eventline.Core.{Record, Scope}
use eventline.Journal.{Journal}
use eventline.Journal.Calls
use eventline.Journal.Ids.{Ascends}
use eventline.Journal.Valid.{IsValid}
use eventline.Buffer.Records
use eventline.Buffer.Scopes.Exit
use eventline.Buffer.Scopes.{BufferedScope, live}
use eventline.Load.{RunBuilder, SavedRun, same_string}
use eventline.Load.Repair.{Finished, finish-Finished}
use eventline.Load.Lines.{
  Loader, empty_loader, versioned_run, add_scope_if, add_record_if, read_decoded, read_line, Line,
  bytes, read, decode, choose_run, read_files, finish_runs, trailing_run, finish_all,
  load_jsonl_files,
}
use eventline.Wire.{
  Serde, render_jsonl_in_run, render_scope_jsonl, scope_among, lines_of, records_jsonl,
}
use eventline.Wire.Decoding.{
  ReadsBack, on_wire, restored, decode-render_jsonl_in_run, decode-render_scope_jsonl,
}
use eventline.Wire.Holding.{exported, Ready, Builds, versioned_run_lem, add_parts-Holds}
use eventline.Wire.Building.{
  Below, Below-append, scope_among-Beside, add_scope_if-Builds, embedded_if-Builds,
  add_record_if-Builds,
}

abbrev pub AllOnWire : List Record → Type 0
AllOnWire [] = Unit
AllOnWire (r ∷ records) = (on_wire r.kind r.scope ≡ true) × AllOnWire records

module _ (same_wire : Record → Record → Bool) (run_id : String) where
  module _ {J : Type 0} (serde : Serde J) (reads : ReadsBack serde) where
    -- A line that is decoded to parts of this run, by what is done with them.
    read_line-Ready :
        (scopes scopes' : List Scope) (records records' : List Record) (l : Loader)
        (source : Option String) (line : ℕ) (j : J) (r : Option Record) (s : Option Scope)
        → Ready run_id scopes records l
        → decode serde.json (some j) ≡ inr (some run_id, (r, s))
        → ((b : RunBuilder)
            → Builds run_id scopes records b
            → Returns (add_scope_if b s) λ (c, kind). Builds run_id scopes' records c)
        → ((c : RunBuilder)
            → Builds run_id scopes' records c
            → Returns (add_record_if same_wire c r) λ (d, kind). Builds run_id scopes' records' d)
        → Returns
            (read_line same_wire serde.json l (some j) source line)
            (Ready run_id scopes' records')
    unfolding read_line read_decoded choose_run
    read_line-Ready scopes scopes' records records' l source line j r s ready decoded adds keeps =
        let (first, h) = versioned_run_lem source run_id scopes records l ready in
        let (k, run, w) =
          add_parts-Holds same_wire run_id scopes scopes' records records'
            (versioned_run l source run_id).0 source line r s h adds keeps in
        (k, rw (read_line, decoded, read_decoded, choose_run, ◌>>=◌, first) run, inr w)

    abbrev line_of : J → Line same_wire serde.json
    line_of j = bytes (some j)

    read-records :
        (named : same_string run_id "" ≡ false) (scopes : List Scope) (before todo : List Record)
        (lo hi : ℕ) (l : Loader) (source : Option String) (line : ℕ)
        → Ready run_id scopes before l
        → Below (λ r. r.id) lo before
        → Ascends lo (map (λ r. r.id) todo) hi
        → AllOnWire todo
        → Returns
            (read same_wire serde.json l source line (
              map line_of
                (map (λ r. render_jsonl_in_run serde r (scope_among scopes r.scope) run_id) todo)))
            (Ready run_id scopes (before ++ map (restored serde.reread) todo))
    unfolding read
    read-records named scopes before [] lo hi l source line ready below ascend wired =
        (l, refl, subst (λ rs. Ready run_id scopes rs l) (sym (append-nil before)) ready)
    read-records named scopes before (r ∷ todo) lo hi l source line ready below ascend wired =
        let s = scope_among scopes r.scope in
        let (beside, there) = scope_among-Beside scopes r r.scope refl in
        let r' = restored serde.reread r in
        let (k, run, w) =
          read_line-Ready scopes scopes before (before ++ r' ∷ []) l source (line + 1)
            (render_jsonl_in_run serde r s run_id) (some r') s ready
            (decode-render_jsonl_in_run serde reads r s run_id named wired.0 beside)
            (embedded_if-Builds run_id scopes before s there)
            (add_record_if-Builds run_id same_wire scopes before r' (below r.id ascend.0)) in
        let (m, run', w') =
          read-records named scopes (before ++ r' ∷ []) todo (suc r.id) hi k source (line + 1) w
            (Below-append (λ q. q.id) lo before r' below ascend.0) ascend.1 wired.1 in
        (
          m,
          rw (run, ◌>>=◌) run',
          subst (λ rs. Ready run_id scopes rs m)
              (append_assoc before (r' ∷ []) (map (restored serde.reread) todo)) w',
        )

    -- Behind the lines of the scopes, the rest is read with all of them.
    read-scopes :
        (named : same_string run_id "" ≡ false) (before todo : List Scope) (lo hi : ℕ) (l : Loader)
        (source : Option String) (line : ℕ) (more : List J) (P : Loader → Type 0)
        → Ready run_id before [] l
        → Below (λ s. s.id) lo before
        → Ascends lo (map (λ s. s.id) todo) hi
        → ((k : Loader) (line' : ℕ)
            → Ready run_id (before ++ todo) [] k
            → Returns (read same_wire serde.json k source line' (map line_of more)) P)
        → Returns
            (read same_wire serde.json l source line
              (map line_of (map (λ s. render_scope_jsonl serde s run_id) todo ++ more)))
            P
    unfolding read
    read-scopes named before [] lo hi l source line more P ready below ascend rest =
        rest l line (subst (λ ss. Ready run_id ss [] l) (sym (append-nil before)) ready)
    read-scopes named before (s ∷ todo) lo hi l source line more P ready below ascend rest =
        let (k, run, w) =
          read_line-Ready before (before ++ s ∷ []) [] [] l source (line + 1)
            (render_scope_jsonl serde s run_id) none (some s) ready
            (decode-render_scope_jsonl serde reads s run_id named)
            (add_scope_if-Builds run_id before [] s (below s.id ascend.0))
            (λ c v. ((c, none), refl, v)) in
        let (m, run', w') =
          read-scopes named (before ++ s ∷ []) todo (suc s.id) hi k source (line + 1) more P w
            (Below-append (λ t. t.id) lo before s below ascend.0) ascend.1
            (λ k' line' ready'.
              rest k' line'
                (subst (λ ss. Ready run_id ss [] k') (append_assoc before (s ∷ []) todo) ready')) in
        (m, rw (run, ◌>>=◌) run', w')

ids-snapshot :
    (bs : List BufferedScope)
    → map (λ (s : Scope). s.id) (map (λ (b : BufferedScope). b.scope) bs) ≡ map (λ b. b.scope.id) bs
ids-snapshot [] = refl
ids-snapshot (b ∷ bs) = ap (◌∷◌ b.scope.id) (ids-snapshot bs)

-- The exported lines are read as one run with exactly the scopes and the records, or as none.
read-Ready :
    {W J : Type 0} (same_wire : Record → Record → Bool) (serde : Serde J) (reads : ReadsBack serde)
    (j : Journal W) (source : Option String)
    → IsValid j
    → same_string j.run_id "" ≡ false
    → AllOnWire (Calls.records j)
    → Returns
        (read same_wire serde.json empty_loader source 0
          (map (λ t. bytes (some t)) (records_jsonl serde j)))
        (Ready j.run_id (Calls.scopes j) (map (restored serde.reread) (Calls.records j)))
unfolding records_jsonl lines_of Calls.scopes Calls.records Exit.scopes_snapshot
    Records.records_snapshot
read-Ready same_wire serde reads j source v named wired =
    read-scopes same_wire j.run_id serde reads named [] (Calls.scopes j) 0 j.next_scope_id
      empty_loader source 0
      (map (λ r. render_jsonl_in_run serde r (scope_among (Calls.scopes j) r.scope) j.run_id)
        (Calls.records j))
      (Ready j.run_id (Calls.scopes j) (map (restored serde.reread) (Calls.records j)))
      (inl (refl, refl, refl)) (λ id h. refl)
      (subst (λ ids. Ascends 0 ids j.next_scope_id)
        (sym (ids-snapshot (live j.buffer.scopes.entries))) v.scopes_ascend)
      (λ k line' ready.
        read-records same_wire j.run_id serde reads named (Calls.scopes j) [] (Calls.records j) 0
          j.next_record_id k source line' ready (λ id h. refl) v.records_ascend wired)

-- The finished runs of a loader that holds an export, or nothing.
abbrev pub LoadsRun : String → List Scope → List Record → List SavedRun → Type 0
LoadsRun run_id scopes records runs =
    ((runs ≡ []) × (scopes ≡ []) × (records ≡ []))
    ⊎ ((run : SavedRun) × (runs ≡ run ∷ []) × Finished (exported run_id scopes records) run)

finish_all-LoadsRun :
    (run_id : String) (scopes : List Scope) (records : List Record) (l : Loader)
    → Ready run_id scopes records l
    → Returns (finish_all l) λ (runs, issues). LoadsRun run_id scopes records runs
unfolding finish_all finish_runs trailing_run
finish_all-LoadsRun run_id scopes records l (inl (fresh, no_scopes, no_records)) =
    (([], []), rw fresh, inl (refl, no_scopes, no_records))
finish_all-LoadsRun run_id scopes records l (inr h) =
    let b = h.builder in
    let ((run, issues), done, f) = finish-Finished b h.built.scopes_placed in
    (
      (run ∷ [], l.issues ++ (issues ++ [])),
      rw (h.alone, h.no_headers, finish_runs, done, ◌>>=◌),
      inr (run, refl, subst (λ old. Finished old run) h.run f),
    )

-- For every valid journal with a run identifier, whose exits name their scopes: loading its exported lines as a
-- file returns, with one run of this identifier, or with none where the journal has neither scopes nor
-- records. The run has no header and exactly the records of the journal, in order, with their fields as a
-- text gives them back. Its scopes are those of the journal, in order and as they were, but that the link to
-- a parent is cut where the parents do not lead to a root; and behind them stands a placeholder, listed as
-- missing, for every scope that a scope or a record refers to and that the journal no longer has. A text is
-- read by the names of its fields.
pub load-records_jsonl :
    {W J : Type 0} (same_wire : Record → Record → Bool) (serde : Serde J) (reads : ReadsBack serde)
    (j : Journal W) (source : Option String)
    → IsValid j
    → same_string j.run_id "" ≡ false
    → AllOnWire (Calls.records j)
    → Returns
        (load_jsonl_files same_wire serde.json
          ((source, map (λ t. bytes (some t)) (records_jsonl serde j)) ∷ []))
        (λ (runs, issues).
          LoadsRun j.run_id (Calls.scopes j) (map (restored serde.reread) (Calls.records j)) runs)
unfolding load_jsonl_files read_files
load-records_jsonl same_wire serde reads j source v named wired =
    let (l, run, ready) = read-Ready same_wire serde reads j source v named wired in
    let (runs, done, w) =
      finish_all-LoadsRun j.run_id (Calls.scopes j) (map (restored serde.reread) (Calls.records j))
        l ready in
    (runs, rw (run, ◌>>=◌) done, w)
