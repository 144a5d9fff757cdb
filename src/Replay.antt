-- ===== src/Replay.antt =====
-- The queries of src/replay.rs over one snapshot of records and scopes. A map holds the references
-- that the source holds, as the values themselves.
pub mod Index
pub mod Slowest
use eventline.Prelude.{
  ℕ, zero, suc, ◌+◌, ◌-◌, ◌≤◌, ◌<◌, ◌*◌, ◌/◌, ◌%◌, ◌^◌, min, max, ◌≡◌, ◌⊎◌, ◌≢◌, ◌↔◌, not, ◌||◌,
  String, is_none, or_else, refl, sym, ap, ◌∙◌, Bool, true, false, Option, none, some, List, [],
  ◌∷◌, ◌++◌, inl, inr, map, arith, ◌==◌, ltb, leb, if◌then◌else◌, Run, ok, panic, ◌>>=◌, unwrap,
  Returns, usize_max, add_usize, sub_usize, add_usize_lem, sub_usize_lem, checked_add, is_none_or,
  is_some, length, length-append, length-set, length-drop, get_elem?, set, filter, ◌&&◌, position,
  find?-position, position-lt-length, subst, find?, drop, take, HashMap, insert, remove, no_keys,
  Option-cases, Bool-cases, ==_iff,
}
use eventline.Core.{
  EventKind, info, warning, error, debug, Outcome, success, failure, aborted, Record, RecordKind,
  event, scope_exit, Scope,
}

pub record ScopeOutcome : Type 0 where
  pub scope : Scope
  pub outcome : Outcome
  pub duration_ns : ℕ

-- `index.entry(key).or_insert(value)`.
abbrev pub or_insert {ℓ} : {V : Type ℓ} → HashMap V → ℕ → V → HashMap V
or_insert m k v = insert m k (elim (m k) [ none ↦ v | some old ↦ old ])

-- `record.scope == Some(id)`.
abbrev pub in_scope : ℕ → Record → Bool
in_scope id r = elim r.scope [ none ↦ false | some s ↦ s == id ]

index_from : HashMap Scope → List Scope → HashMap Scope
index_from m [] = m
index_from m (s ∷ scopes) = index_from (or_insert m s.id s) scopes

unfoldable pub index_scopes : List Scope → HashMap Scope
unfolding index_from
index_scopes scopes = index_from no_keys scopes

unfoldable pub records_for_scope : List Record → ℕ → List Record
records_for_scope records id = filter (in_scope id) records

same_level : EventKind → EventKind → Bool
same_level info info = true
same_level warning warning = true
same_level error error = true
same_level debug debug = true
same_level a b = false

at_level : EventKind → RecordKind → Bool
unfolding same_level
at_level level (event kind name fields) = same_level kind level
at_level level (scope_exit outcome duration) = false

unfoldable pub records_at_level : List Record → EventKind → List Record
unfolding at_level
records_at_level records level = filter (λ r. at_level level r.kind) records

-- What one record adds to the outcomes: nothing for an event, for an exit without a scope, and for
-- one whose scope has no metadata.
unfoldable pub outcome_of : HashMap Scope → Record → Option ScopeOutcome
outcome_of scopes r = elim r.kind [
  | event kind name fields ↦ none
  | scope_exit outcome duration ↦ elim r.scope [
    | none ↦ none
    | some id ↦ elim (scopes id) [
      | none ↦ none
      | some s ↦ some (record { scope = s; outcome = outcome; duration_ns = duration })
    ]
  ]
]

-- `iter().filter_map(f).collect()`.
abbrev pub filter_map {ℓ κ} : {A : Type ℓ} {B : Type κ} → (A → Option B) → List A → List B
filter_map f [] = []
filter_map f (x ∷ xs) = elim (f x) [ none ↦ filter_map f xs | some y ↦ y ∷ filter_map f xs ]

unfoldable pub collect_outcomes : List Record → HashMap Scope → List ScopeOutcome
collect_outcomes records scopes = filter_map (outcome_of scopes) records

unfoldable pub scope_outcomes : List Record → List Scope → List ScopeOutcome
scope_outcomes records scopes = collect_outcomes records (index_scopes scopes)

abbrev pub is_failure : Outcome → Bool
is_failure success = false
is_failure failure = true
is_failure aborted = false

unfoldable pub failed_scopes : List Record → List Scope → List ScopeOutcome
failed_scopes records scopes = filter (λ s. is_failure s.outcome) (scope_outcomes records scopes)

-- `sort_by_key(|s| Reverse(s.duration_ns))`: the stable sort of the standard library, longest first.
unfoldable pub place_outcome : ScopeOutcome → List ScopeOutcome → List ScopeOutcome
place_outcome s [] = s ∷ []
place_outcome s (t ∷ rest) =
    if leb t.duration_ns s.duration_ns then s ∷ t ∷ rest else t ∷ place_outcome s rest

unfoldable pub sort_outcomes : List ScopeOutcome → List ScopeOutcome
unfolding place_outcome
sort_outcomes [] = []
sort_outcomes (s ∷ rest) = place_outcome s (sort_outcomes rest)

unfoldable pub slowest_scopes : List Record → List Scope → ℕ → List ScopeOutcome
slowest_scopes records scopes limit = take limit (sort_outcomes (scope_outcomes records scopes))

pub record ReplayIndex : Type 0 where
  pub records : List Record
  pub scopes : HashMap Scope
  pub records_by_id : HashMap Record
  pub records_by_scope : HashMap (List Record)

-- `records_by_scope.entry(scope).or_default().push(record)`, for a record in a scope.
push_in_scope : HashMap (List Record) → Option ℕ → Record → HashMap (List Record)
push_in_scope m none r = m
push_in_scope m (some id) r = insert m id (elim (m id) [ none ↦ r ∷ [] | some rs ↦ rs ++ r ∷ [] ])

-- The loop of `ReplayIndex::new`.
index_records :
    HashMap Record → HashMap (List Record) → List Record → HashMap Record × HashMap (List Record)
unfolding push_in_scope
index_records by_id by_scope [] = (by_id, by_scope)
index_records by_id by_scope (r ∷ records) =
    index_records (or_insert by_id r.id r) (push_in_scope by_scope r.scope r) records

unfoldable pub new : List Record → List Scope → ReplayIndex
unfolding index_records
new records scopes =
    let (by_id, by_scope) = index_records no_keys no_keys records in
    record {
      records = records;
      scopes = index_scopes scopes;
      records_by_id = by_id;
      records_by_scope = by_scope;
    }

unfoldable pub scope : ReplayIndex → ℕ → Option Scope
scope ix id = ix.scopes id

unfoldable pub get_record : ReplayIndex → ℕ → Option Record
get_record ix id = ix.records_by_id id

-- `ReplayIndex::records_for_scope`.
unfoldable pub indexed_for_scope : ReplayIndex → ℕ → List Record
indexed_for_scope ix id = elim (ix.records_by_scope id) [ none ↦ [] | some rs ↦ rs ]

-- `ReplayIndex::scope_outcomes`.
unfoldable pub indexed_outcomes : ReplayIndex → List ScopeOutcome
indexed_outcomes ix = collect_outcomes ix.records ix.scopes
