-- ===== src/Load.antt =====
-- `RunBuilder` of src/replay/load.rs: one run that is put together from saved entries. Texts of issues
-- are not modelled; the comparison of two records by their wire form is a parameter, since rendering
-- and parsing JSON belongs to another crate.
pub mod Finish
pub mod Rooted
pub mod Chains
pub mod Walk
pub mod Placeholders
pub mod Repair
pub mod Built
pub mod Appending
pub mod Lines
pub mod Loading
pub mod Whole
pub mod Unfinished
use eventline.Prelude.{
  ℕ, zero, suc, ◌+◌, ◌-◌, ◌≤◌, ◌<◌, ◌*◌, ◌/◌, ◌%◌, ◌^◌, min, max, ◌≡◌, ◌⊎◌, ◌≢◌, ◌↔◌, not, ◌||◌,
  String, is_none, or_else, refl, sym, ap, ◌∙◌, Bool, true, false, Option, none, some, List, [],
  ◌∷◌, ◌++◌, inl, inr, map, arith, ◌==◌, ltb, leb, if◌then◌else◌, Run, ok, panic, ◌>>=◌, unwrap,
  Returns, usize_max, add_usize, sub_usize, add_usize_lem, sub_usize_lem, checked_add, is_none_or,
  is_some, length, length-append, length-set, length-drop, get_elem?, set, filter, ◌&&◌, position,
  find?-position, position-lt-length, subst, find?, drop, HashMap, insert, remove, no_keys,
  Option-cases, Bool-cases, ==_iff,
}
use Prim.Native.String.{compare as compare_string}
use Prim.Native.Nat.{Ordering}
use text.Mathlib.TextPositions.{compare_refl}
use eventline.Core.{
  Outcome, success, failure, aborted, Record, RecordKind, event, scope_exit, Scope, ExitMessages,
  no_messages,
}

pub data ReplayIssueKind : Type 0 where
  invalid_line unsupported_version inferred_run_boundary conflicting_record : ReplayIssueKind
  conflicting_scope missing_scope_metadata invalid_hierarchy : ReplayIssueKind

-- An issue, with the one-based line where there is one.
pub record ReplayIssue : Type 0 where
  pub source : Option String
  pub line : Option ℕ
  pub kind : ReplayIssueKind

pub record SavedRun : Type 0 where
  pub run_id : Option String
  pub headers : List String
  pub records : List Record
  pub scopes : List Scope
  pub missing_scope_metadata : List ℕ

pub record RunBuilder : Type 0 where
  pub run : SavedRun
  pub source : Option String
  pub records : HashMap ℕ
  pub scopes : HashMap ℕ
  pub outcomes : HashMap (Outcome × ℕ)

unfoldable pub new : Option String → Option String → RunBuilder
new run_id source = record {
  run = record {
    run_id = run_id;
    headers = [];
    records = [];
    scopes = [];
    missing_scope_metadata = [];
  };
  source = source;
  records = no_keys;
  scopes = no_keys;
  outcomes = no_keys;
}

abbrev pub same_string : String → String → Bool
same_string a b = elim (compare_string a b) [ Ordering.eq ↦ true | _ ↦ false ]

pub same_string_refl : (s : String) → same_string s s ≡ true
same_string_refl s = ap (λ o. elim o [ Ordering.eq ↦ true | _ ↦ false ]) (compare_refl s)

-- `==` on options.
abbrev pub same_option {ℓ} : {A : Type ℓ} → (A → A → Bool) → Option A → Option A → Bool
same_option same none none = true
same_option same none (some b) = false
same_option same (some a) none = false
same_option same (some a) (some b) = same a b

-- `matches!((a, b), (Some(a), Some(b)) if a != b)`.
abbrev pub both_differ : Option ℕ → Option ℕ → Bool
both_differ (some a) (some b) = not (a == b)
both_differ none b = false
both_differ (some a) none = false

unfoldable pub conflicts : Scope → Scope → Bool
conflicts existing incoming =
    not (same_option ◌==◌ existing.parent incoming.parent)
    || (not (existing.entered_at == incoming.entered_at)
        || (not (same_option same_string existing.name incoming.name)
            || both_differ existing.exited_at incoming.exited_at))

abbrev pub accepted : Bool → Option String → Option String → Option String
accepted accept old new = if accept && is_some new then new else old

-- The existing scope, completed by later metadata of the same scope.
unfoldable pub merge : Scope → Scope → Scope
merge existing incoming =
    let accept = is_none existing.exited_at || is_some incoming.exited_at in
    let old = existing.exit_messages in
    let new = incoming.exit_messages in
    record existing {
      exited_at = or_else existing.exited_at incoming.exited_at;
      exit_messages = record {
        on_success = accepted accept old.on_success new.on_success;
        on_failure = accepted accept old.on_failure new.on_failure;
        on_aborted = accepted accept old.on_aborted new.on_aborted;
      };
    }

-- `RunBuilder::add_scope`: whether there was a conflict. Indexing the scopes panics out of range.
unfoldable pub add_scope : RunBuilder → Scope → Run (RunBuilder × Bool)
unfolding conflicts merge
add_scope b incoming = elim (b.scopes incoming.id) [
  | none ↦ ok (
    record b {
      scopes = insert b.scopes incoming.id (length b.run.scopes);
      run = record (b.run) { scopes = b.run.scopes ++ incoming ∷ [] };
    },
    false,
  )
  | some index ↦ do
    existing ← unwrap (get_elem? b.run.scopes index)
    if conflicts existing incoming
        then ok (b, true)
        else ok (
          record b {
            run = record (b.run) { scopes = set b.run.scopes index (merge existing incoming) };
          },
          false,
        )
]

same_outcome : Outcome → Outcome → Bool
same_outcome success success = true
same_outcome failure failure = true
same_outcome aborted aborted = true
same_outcome a b = false

-- The exit of a scope, if the record is one that names its scope.
unfoldable pub exit_of : Record → Option (ℕ × Outcome × ℕ)
exit_of r = elim r.kind [
  | event kind name fields ↦ none
  | scope_exit outcome duration ↦ elim r.scope [
    | none ↦ none
    | some id ↦ some (id, outcome, duration)
  ]
]

-- The outcome map and the issue, after the exit was noted. An earlier conflict is not replaced.
unfoldable pub note_exit :
    HashMap (Outcome × ℕ)
    → Option ReplayIssueKind
    → Option (ℕ × Outcome × ℕ)
    → HashMap (Outcome × ℕ) × Option ReplayIssueKind
unfolding same_outcome
note_exit m conflict none = (m, conflict)
note_exit m conflict (some (id, outcome, duration)) = elim (m id) [
  | none ↦ (insert m id (outcome, duration), conflict)
  | some (before, lasted) ↦ (
    m,
    if not (same_outcome before outcome && (lasted == duration)) && is_none conflict
        then some conflicting_scope
        else conflict,
  )
]

module _ (same_wire : Record → Record → Bool) where
  -- The end of `add_record`, with the conflict and the map of records so far.
  unfoldable pub keep_record :
      RunBuilder → Record → HashMap ℕ → Option ReplayIssueKind → RunBuilder × Option ReplayIssueKind
  unfolding note_exit exit_of
  keep_record b r records conflict =
      let (outcomes, issue) = note_exit b.outcomes conflict (exit_of r) in
      (
        record b {
          records = records;
          outcomes = outcomes;
          run = record (b.run) { records = b.run.records ++ r ∷ [] };
        },
        issue,
      )

  -- `RunBuilder::add_record`: the issue, if there is one.
  unfoldable pub add_record : RunBuilder → Record → Run (RunBuilder × Option ReplayIssueKind)
  unfolding keep_record
  add_record b r = elim (b.records r.id) [
    | none ↦ ok (keep_record b r (insert b.records r.id (length b.run.records)) none)
    | some index ↦ do
      existing ← unwrap (get_elem? b.run.records index)
      if same_wire existing r
          then ok (b, none)
          else ok (keep_record b r b.records (some conflicting_record))
  ]
