-- ===== src/Load/Repair.antt =====
-- `finish` of src/replay/load.rs: whatever was built, the result has a scope for every reference, and the
-- parents of every scope lead to a root.
use eventline.Prelude.{
  ℕ, ◌+◌, ◌≡◌, ◌||◌, String, refl, sym, ap, ◌∙◌, true, Option, none, some, List, [], ◌∷◌, ◌++◌, inl,
  inr, map, arith, ◌==◌, if◌then◌else◌, ◌>>=◌, Returns, is_some, length, subst, HashMap,
  Option-cases, Bool-cases, ==_iff,
}
use eventline.Core.{Scope}
use eventline.Replay.{filter_map}
use eventline.Load.{RunBuilder, SavedRun, invalid_hierarchy}
use eventline.Load.Finish.{contains, needed, add_missing, repair, finish, found_issue}
use eventline.Load.Rooted.{find_id, position_id, IsIndexed, Rooted}
use eventline.Load.Chains.{Cuts, AllRooted, Closed}
use eventline.Load.Walk.{Ready, walk_lem, unvisited_bound}
use eventline.Load.Placeholders.{filled, filled_size, Once, add_missing_lem}

pub contains-append :
    (xs ys : List ℕ) (y : ℕ) → contains (xs ++ ys) y ≡ contains xs y || contains ys y
contains-append [] ys y = refl
contains-append (x ∷ xs) ys y = ground (arith, contains-append xs ys y)

-- A list of roots, and one that was there before.
AllRooted-append :
    (scopes : List Scope) (xs ys : List ℕ)
    → AllRooted scopes xs
    → AllRooted scopes ys
    → AllRooted scopes (xs ++ ys)
AllRooted-append scopes xs ys rx ry z h = elim (Bool-cases (contains xs z)) [
  | inl here ↦ rx z here
  | inr away ↦ ry z (ground (arith, contains-append xs ys z, h, away))
]

record Repaired (scopes : List Scope) (starts : List ℕ) (result : List Scope) : Type 0 where
  kept : (j : ℕ) → Rooted scopes j → Rooted result j
  found : (j : ℕ) → position_id j result ≡ position_id j scopes
  rooted : AllRooted result starts
  size : length result ≡ length scopes
  cuts : Cuts scopes result

-- One repair after another.
Cuts-then :
    (scopes between result : List Scope)
    → Cuts scopes between
    → ((j : ℕ) → Rooted scopes j → Rooted between j)
    → Cuts between result
    → Cuts scopes result
Cuts-then scopes between result first kept second k t at = elim (first k t at) [
  | inl same ↦ elim (second k t same) [
    | inl still ↦ inl still
    | inr (cut, lost) ↦ inr (cut, λ r. lost (kept t.id r))
  ]
  | inr (cut, lost) ↦ elim (second k (record t { parent = none }) cut) [
    | inl still ↦ inr (still, lost)
    | inr (again, _) ↦ inr (again, lost)
  ]
]

-- The repair roots every scope that it starts from.
repair_lem :
    (source : Option String) (index : HashMap ℕ) (visited : List ℕ) (scopes : List Scope)
    (starts : List ℕ)
    → Ready index visited scopes
    → ((x : ℕ) → contains starts x ≡ true → (i : ℕ) × (index x ≡ some i))
    → Returns
        (repair source index visited scopes starts)
        λ (result, issues). Repaired scopes starts result
unfolding repair
repair_lem source index visited scopes [] v there = (
  (scopes, []),
  refl,
  record {
    kept = λ j r. r;
    found = λ j. refl;
    rooted = λ x h. cc;
    size = refl;
    cuts = λ k t at. inl at;
  },
)
repair_lem source index visited scopes (start ∷ starts) v there =
    let (w, run, l) =
      walk_lem (length scopes + 1) index visited scopes [] (some start) v (omega arith)
        (λ id e. there id (ground (arith, e))) (omega (arith, unvisited_bound [] scopes)) in
    let visited_after : AllRooted w.scopes (w.path ++ visited) =
      AllRooted-append w.scopes w.path visited l.rooted (λ x h. l.kept x (v.rooted x h)) in
    let ready : Ready index (w.path ++ visited) w.scopes = record {
      indexed = l.indexed;
      closed = l.closed;
      rooted = visited_after;
    } in
    let ((result, issues), run_rest, r) =
      repair_lem source index (w.path ++ visited) w.scopes starts ready
        (λ x h. there x (ground (arith, h))) in
    let start_rooted : Rooted w.scopes start = elim (l.reached start refl) [
      | inl new ↦ l.rooted start new
      | inr old ↦ l.kept start (v.rooted start old)
    ] in
    (
      (result, if w.cut then found_issue source invalid_hierarchy ∷ issues else issues),
      rw (run, ◌>>=◌, run_rest),
      record {
        kept = λ j q. r.kept j (l.kept j q);
        found = λ j. r.found j ∙ l.found j;
        rooted = λ x h. elim (Bool-cases (start == x)) [
          | inl same ↦ subst (Rooted result) ((==_iff start x).0 same) (r.kept start start_rooted)
          | inr apart ↦ r.rooted x (ground (arith, h, apart))
        ];
        size = r.size ∙ l.size;
        cuts = Cuts-then scopes w.scopes result l.cuts l.kept r.cuts;
      },
    )

parent_needed :
    (j : ℕ) (s : Scope) (p : ℕ) (scopes : List Scope)
    → find_id j scopes ≡ some s
    → s.parent ≡ some p
    → contains (filter_map (λ t. t.parent) scopes) p ≡ true
parent_needed j s p [] e above = cc
parent_needed j s p (t ∷ scopes) e above = elim (Bool-cases (t.id == j)) [
  | inl here ↦
      let same : t.parent ≡ some p = ground (arith, e, here, above) in rw same (ground arith)
  | inr apart ↦
      let rest = parent_needed j s p scopes (ground (arith, e, apart)) above in
      elim (Option-cases t.parent) [
        | inl none_above ↦ rw none_above rest
        | inr (q, q_above) ↦ rw q_above (ground (arith, rest))
      ]
]

contains-ids :
    (x : ℕ) (scopes : List Scope)
    → contains (map (λ s. s.id) scopes) x ≡ is_some (position_id x scopes)
contains-ids x [] = refl
contains-ids x (s ∷ scopes) = ground (arith, contains-ids x scopes)

-- The identifiers that the scopes and the records of a run refer to.
abbrev pub referred : SavedRun → List ℕ
referred run = filter_map (λ s. s.parent) run.scopes ++ filter_map (λ r. r.scope) run.records

-- What `finish` makes of a run: `whole` is the run with its placeholders.
pub record Finished (old run : SavedRun) : Type 0 where
  pub added : List ℕ
  pub once : Once added
  pub new :
      (id : ℕ)
      → contains added id ≡ true
      → (contains (referred old) id ≡ true) × (position_id id old.scopes ≡ none)
  pub rest : run ≡ record (filled old added) { scopes = run.scopes }
  pub size : length run.scopes ≡ length old.scopes + length added
  pub scopes : Cuts (filled old added).scopes run.scopes
  pub there :
      (id : ℕ) → contains (referred old) id ≡ true → (i : ℕ) × (position_id id run.scopes ≡ some i)
  pub rooted : (j i : ℕ) → position_id j run.scopes ≡ some i → Rooted run.scopes j

-- For every builder whose map holds the places of its scopes, `finish` returns (no walk runs out of fuel, no
-- index is out of range). It gives the run of the builder with its records and headers, and behind its scopes
-- a placeholder for each of some different identifiers, which are listed as missing and which a scope or a record
-- refers to without there being a scope. Every scope is at its place as it was, but for a parent
-- link that may be cut, and it is cut only where the parents did not lead to a root. Every identifier that
-- a scope or a record refers to has a scope, and the parents lead from every scope to a root.
pub finish-Finished :
    (b : RunBuilder)
    → IsIndexed b.scopes b.run.scopes
    → Returns (finish b) λ (run, issues). Finished b.run run
unfolding finish needed
finish-Finished b v =
    let ids = needed b in
    let c = (add_missing b ids).0 in
    let f = add_missing_lem b ids v in
    let closed : Closed c.scopes c.run.scopes = λ j s p found above. f.there p (
      ground (
        arith,
        contains-append (filter_map (λ t. t.parent) b.run.scopes)
            (filter_map (λ r. r.scope) b.run.records) p,
        parent_needed j s p b.run.scopes (f.links j s p found above) above,
      )) in
    let ready : Ready c.scopes [] c.run.scopes = record {
      indexed = f.indexed;
      closed = closed;
      rooted = λ x h. cc;
    } in
    let ((scopes, cuts), run, r) =
      repair_lem c.source c.scopes [] c.run.scopes (map (λ s. s.id) c.run.scopes) ready (λ x h.
        elim (Option-cases (c.scopes x)) [
          | inl missing ↦
              absurd (ground (arith, h, missing, contains-ids x c.run.scopes, f.indexed x))
          | inr there ↦ there
        ]) in
    (
      (record (c.run) { scopes = scopes }, (add_missing b ids).1 ++ cuts),
      rw run,
      record {
        added = f.added;
        once = f.once;
        new = λ id h. let (needs, absent) = f.new id h in (needs, sym (v id) ∙ absent);
        rest = ap (λ (old : SavedRun). record old { scopes = scopes }) f.run;
        size =
            r.size ∙ ap (λ (old : SavedRun). length old.scopes) f.run ∙ filled_size b.run f.added;
        scopes = subst (λ (old : SavedRun). Cuts old.scopes scopes) f.run r.cuts;
        there = λ id h. let (i, e) = f.there id h in (i, r.found id ∙ sym (f.indexed id) ∙ e);
        rooted =
            λ j i e. r.rooted j (contains-ids j c.run.scopes ∙ ap is_some (sym (r.found j) ∙ e));
      },
    )
