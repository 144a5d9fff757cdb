-- ===== src/Load/Unfinished.antt =====
-- `SavedRun::unfinished_scopes` of src/replay/load.rs, against the outcomes that replay reports.
use eventline.Prelude.{
  ℕ, zero, suc, ◌≡◌, not, is_none, refl, sym, ap, ◌∙◌, true, Option, none, some, List, [], ◌∷◌, inl,
  inr, arith, ◌==◌, get_elem?, filter, ◌&&◌, find?, HashMap, Option-cases, Bool-cases, ==_iff,
}
use eventline.Core.{Record, RecordKind, event, scope_exit, Scope}
use eventline.Replay.{
  ScopeOutcome, filter_map, index_scopes, outcome_of, collect_outcomes, scope_outcomes,
}
use eventline.Replay.Index.{index_scopes_lem}
use eventline.Load.{SavedRun}
use eventline.Load.Finish.{contains}

-- The scope of an exit record.
unfoldable pub exited_scope : Record → Option ℕ
exited_scope r = elim r.kind [
  | event kind name fields ↦ none
  | scope_exit outcome duration ↦ r.scope
]

unfoldable pub unfinished_scopes : SavedRun → List Scope
unfolding exited_scope
unfinished_scopes run =
    let exited = filter_map exited_scope run.records in
    filter (λ s. is_none s.exited_at && not (contains exited s.id)) run.scopes

-- A scope that a search finds has the identifier that was searched for.
found_id :
    (id : ℕ) (scopes : List Scope) (s : Scope) → find? (λ t. t.id == id) scopes ≡ some s → s.id ≡ id
found_id id [] s e = cc
found_id id (t ∷ scopes) s e = elim (Bool-cases (t.id == id)) [
  | inl here ↦ ground (arith, e, here)
  | inr apart ↦ found_id id scopes s (ground (arith, e, apart))
]

by_kind :
    (m : HashMap Scope) (scopes : List Scope) (r : Record) (o : ScopeOutcome) (k : RecordKind)
    (p : Option ℕ)
    → ((id : ℕ) → m id ≡ find? (λ t. t.id == id) scopes)
    → r.kind ≡ k
    → r.scope ≡ p
    → outcome_of m r ≡ some o
    → exited_scope r ≡ some o.scope.id
unfolding outcome_of exited_scope
by_kind m scopes r o (event kind name fields) p v e e' h = ground (arith, e, h)
by_kind m scopes r o (scope_exit outcome duration) none v e e' h = ground (arith, e, e', h)
by_kind m scopes r o (scope_exit outcome duration) (some id) v e e' h = elim (Option-cases (m id)) [
  | inl missing ↦ ground (arith, e, e', h, missing)
  | inr (s, there) ↦
      let same : s.id ≡ id = found_id id scopes s (sym (v id) ∙ there) in
      ground (arith, e, e', h, there, same)
]

module _ {A B : Type 0} (f : A → Option B) (x : A) (xs : List A) where
  filter_map-none : f x ≡ none → filter_map f (x ∷ xs) ≡ filter_map f xs
  filter_map-none e = rw (filter_map, e)

  filter_map-some : (y : B) → f x ≡ some y → filter_map f (x ∷ xs) ≡ y ∷ filter_map f xs
  filter_map-some y e = rw (filter_map, e)

-- One more record does not take an exit away.
exited_more :
    (r : Record) (records : List Record) (x : ℕ)
    → contains (filter_map exited_scope records) x ≡ true
    → contains (filter_map exited_scope (r ∷ records)) x ≡ true
exited_more r records x h = elim (Option-cases (exited_scope r)) [
  | inl e ↦ ap (λ ys. contains ys x) (filter_map-none exited_scope r records e) ∙ h
  | inr (y, e) ↦
      ap (λ ys. contains ys x) (filter_map-some exited_scope r records y e) ∙ ground (arith, h)
]

step_exited :
    (scopes : List Scope) (r : Record) (records : List Record) (i : ℕ) (o q : ScopeOutcome)
    → ((j : ℕ)
        → get_elem? (filter_map (outcome_of (index_scopes scopes)) records) j ≡ some o
        → contains (filter_map exited_scope records) o.scope.id ≡ true)
    → outcome_of (index_scopes scopes) r ≡ some q
    → get_elem? (q ∷ filter_map (outcome_of (index_scopes scopes)) records) i ≡ some o
    → contains (filter_map exited_scope (r ∷ records)) o.scope.id ≡ true
step_exited scopes r records zero o q rest e at =
    let same : q ≡ o = ground (arith, at) in
    let left : exited_scope r ≡ some o.scope.id =
      by_kind (index_scopes scopes) scopes r o r.kind r.scope (index_scopes_lem scopes) refl refl
        (e ∙ ap some same) in
    ap (λ ys. contains ys o.scope.id) (filter_map-some exited_scope r records o.scope.id left)
    ∙ ground arith
step_exited scopes r records (suc j) o q rest e at = exited_more r records o.scope.id (rest j at)

outcome_exited :
    (scopes : List Scope) (records : List Record) (i : ℕ) (o : ScopeOutcome)
    → get_elem? (filter_map (outcome_of (index_scopes scopes)) records) i ≡ some o
    → contains (filter_map exited_scope records) o.scope.id ≡ true
outcome_exited scopes [] i o e = cc
outcome_exited scopes (r ∷ records) i o e =
    elim (Option-cases (outcome_of (index_scopes scopes) r)) [
      | inl none_here ↦ exited_more r records o.scope.id (
          outcome_exited scopes records i o (
            ap (λ ys. get_elem? ys i)
              (sym (filter_map-none (outcome_of (index_scopes scopes)) r records none_here))
            ∙ e))
      | inr (q, here) ↦
          step_exited scopes r records i o q (λ j at. outcome_exited scopes records j o at) here
            (ap (λ ys. get_elem? ys i)
                (sym (filter_map-some (outcome_of (index_scopes scopes)) r records q here))
              ∙ e)
    ]

filtered_out :
    (exited : List ℕ) (id : ℕ) (scopes : List Scope)
    → contains exited id ≡ true
    → find?
        (λ s. s.id == id)
        (filter (λ s. is_none s.exited_at && not (contains exited s.id)) scopes)
      ≡ none
filtered_out exited id [] h = refl
filtered_out exited id (s ∷ scopes) h = elim (Bool-cases (s.id == id)) [
  | inl here ↦
      let same : contains exited s.id ≡ true = ap (contains exited) ((==_iff s.id id).0 here) ∙ h in
      ground (arith, same, filtered_out exited id scopes h)
  | inr apart ↦ ground (arith, apart, filtered_out exited id scopes h)
]

-- For every run, a scope that has an outcome is not among the unfinished ones.
pub unfinished_scopes-scope_outcomes :
    (run : SavedRun) (i : ℕ) (o : ScopeOutcome)
    → get_elem? (scope_outcomes run.records run.scopes) i ≡ some o
    → find? (λ s. s.id == o.scope.id) (unfinished_scopes run) ≡ none
unfolding unfinished_scopes scope_outcomes collect_outcomes
unfinished_scopes-scope_outcomes run i o e =
    filtered_out (filter_map exited_scope run.records) o.scope.id run.scopes
      (outcome_exited run.scopes run.records i o e)
