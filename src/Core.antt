-- ===== src/Core.antt =====
-- src/core: event kinds, outcomes, field values, records and scopes. Identifiers are `u64` values,
-- written as numbers; a float is its 64-bit pattern, since only its identity is used here.
pub mod FieldMap
use eventline.Prelude.{some, none, ◌-◌, ◌*◌, ℕ, String, Bool, Option, none, List}

pub data EventKind : Type 0 where
  info warning error debug : EventKind

pub data Outcome : Type 0 where
  success failure aborted : Outcome

-- An `i64`: `minus n` is -(n + 1).
pub data Signed : Type 0 where
  plus minus : ℕ → Signed

pub data Value : Type 0 where
  string : String → Value
  int : Signed → Value
  uint float : ℕ → Value
  bool : Bool → Value
  duration_ms : ℕ → Value
  null : Value

-- `Option<HashMap<String, Value>>`, as an association list without repeated keys.
abbrev pub Fields : Type 0
Fields = Option (List (String × Value))

pub data RecordKind : Type 0 where
  event : EventKind → String → Fields → RecordKind
  scope_exit : Outcome → ℕ → RecordKind

pub record Record : Type 0 where
  pub id : ℕ
  pub scope : Option ℕ
  pub time_ns : ℕ
  pub kind : RecordKind

pub record ExitMessages : Type 0 where
  pub on_success : Option String
  pub on_failure : Option String
  pub on_aborted : Option String

abbrev pub no_messages : ExitMessages
no_messages = record { on_success = none; on_failure = none; on_aborted = none }

pub record Scope : Type 0 where
  pub id : ℕ
  pub parent : Option ℕ
  pub entered_at : ℕ
  pub name : Option String
  pub exited_at : Option ℕ
  pub exit_messages : ExitMessages

-- `Scope::elapsed` in nanoseconds, from wall-clock milliseconds; `now` is the clock's reading, used
-- while the scope is open. `-` stops at 0, as `saturating_sub` does.
unfoldable pub scope_elapsed : Scope → ℕ → ℕ
scope_elapsed s now = (elim s.exited_at [ none ↦ now | some t ↦ t ] - s.entered_at) * 1000000

-- `Scope::exit_message_for`.
unfoldable pub exit_message_for : Scope → Outcome → Option String
exit_message_for s Outcome.success = s.exit_messages.on_success
exit_message_for s Outcome.failure = s.exit_messages.on_failure
exit_message_for s Outcome.aborted = s.exit_messages.on_aborted
