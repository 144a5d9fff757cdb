-- ===== src/Runtime/Levels.antt =====
-- src/runtime/log_level.rs, and the levels and the policy of `Config` in src/runtime/mod.rs. The two
-- global thresholds are arguments.
use eventline.Prelude.{
  ℕ, ◌<◌, ◌≡◌, ◌||◌, String, refl, ap, ◌∙◌, Bool, true, false, Option, none, some, arith, ◌==◌, ltb,
  leb, if◌then◌else◌, ◌&&◌,
}
use eventline.Core.{EventKind, Record, RecordKind, event, scope_exit}
use eventline.Writer.Rotation.{LogPolicy}
use eventline.Writer.Background.{WriteMode, best_effort}

pub data LogLevel : Type 0 where
  debug info warning error off : LogLevel

-- `level as u8`.
unfoldable pub as_u8 : LogLevel → ℕ
as_u8 debug = 0
as_u8 info = 1
as_u8 warning = 2
as_u8 error = 3
as_u8 off = 4

unfoldable pub from_u8 : ℕ → LogLevel
from_u8 v =
    if v == 0
    then debug
    else if v == 1
    then info
    else if v == 2
    then warning
    else if v == 3
    then error
    else off

unfoldable pub level_for_event_kind : EventKind → LogLevel
level_for_event_kind EventKind.debug = debug
level_for_event_kind EventKind.info = info
level_for_event_kind EventKind.warning = warning
level_for_event_kind EventKind.error = error

-- `level_enabled` and `recording_enabled`, which read a threshold each.
unfoldable pub level_enabled : ℕ → EventKind → Bool
unfolding as_u8 level_for_event_kind
level_enabled threshold kind = leb threshold (as_u8 (level_for_event_kind kind))

unfoldable pub enabled_for_record : ℕ → Record → Bool
enabled_for_record threshold r = elim r.kind [
  | event kind name fields ↦ level_enabled threshold kind
  | scope_exit outcome duration ↦ true
]

-- `record_enabled_at_level`; the order of levels is that of their numbers.
unfoldable pub record_enabled_at_level : Record → LogLevel → Bool
unfolding as_u8 level_for_event_kind
record_enabled_at_level r min_level = elim r.kind [
  | event kind name fields ↦ leb (as_u8 min_level) (as_u8 (level_for_event_kind kind))
  | scope_exit outcome duration ↦ true
]

pub data FileFormat : Type 0 where
  text jsonl : FileFormat

pub record Config : Type 0 where
  pub console_enabled : Bool
  pub console_level : LogLevel
  pub console_color : Bool
  pub console_show_scope : Bool
  pub console_show_scope_exit : Bool
  pub console_duration : Bool
  pub console_timestamp : Bool
  pub file_enabled : Bool
  pub file_level : LogLevel
  pub file_path : Option String
  pub file_format : FileFormat
  pub file_policy_max_bytes : Option ℕ
  pub file_policy_keep_backups : Option ℕ
  pub max_journal_records : ℕ
  pub writer_mode : WriteMode

-- `Config::default()`.
abbrev pub default_config : Config
default_config = record {
  console_enabled = true;
  console_level = info;
  console_color = true;
  console_show_scope = true;
  console_show_scope_exit = true;
  console_duration = false;
  console_timestamp = false;
  file_enabled = false;
  file_level = debug;
  file_path = none;
  file_format = text;
  file_policy_max_bytes = none;
  file_policy_keep_backups = none;
  max_journal_records = 500;
  writer_mode = best_effort;
}

unfoldable pub file_policy : Config → Option LogPolicy
file_policy cfg = elim cfg.file_policy_max_bytes [
  | none ↦ none
  | some bytes ↦ elim cfg.file_policy_keep_backups [
    | none ↦ none
    | some backups ↦ some (record { max_bytes = bytes; keep_backups = backups })
  ]
]

-- `if enabled && level < current { level }`.
abbrev pub lower : Bool → LogLevel → LogLevel → LogLevel
lower enabled level current =
    if enabled && ltb (as_u8 level) (as_u8 current) then level else current

unfoldable pub effective_level : Config → LogLevel
unfolding as_u8
effective_level cfg =
    lower cfg.file_enabled cfg.file_level (lower cfg.console_enabled cfg.console_level off)

pub from_u8-as_u8 : (level : LogLevel) → from_u8 (as_u8 level) ≡ level
unfolding from_u8 as_u8
from_u8-as_u8 debug = refl
from_u8-as_u8 info = refl
from_u8-as_u8 warning = refl
from_u8-as_u8 error = refl
from_u8-as_u8 off = refl

kind_below_off : (kind : EventKind) → as_u8 (level_for_event_kind kind) < 4
unfolding as_u8 level_for_event_kind
kind_below_off EventKind.debug = omega arith
kind_below_off EventKind.info = omega arith
kind_below_off EventKind.warning = omega arith
kind_below_off EventKind.error = omega arith

-- The lower of two numbers, where the first counts.
abbrev lower_number : Bool → ℕ → ℕ → ℕ
lower_number enabled level current = if enabled && ltb level current then level else current

as_u8-lower :
    (enabled : Bool) (level current : LogLevel)
    → as_u8 (lower enabled level current) ≡ lower_number enabled (as_u8 level) (as_u8 current)
as_u8-lower true level current = ground arith
as_u8-lower false level current = refl

-- A number below 4 is reached exactly where it is reached by one of the levels that count.
leb-lower_number :
    (console file : Bool) (c f k : ℕ)
    → k < 4
    → leb (lower_number file f (lower_number console c 4)) k
      ≡ (console && leb c k) || (file && leb f k)
leb-lower_number console file c f k h = ground arith

threshold_lem :
    (cfg : Config) (kind : EventKind)
    → level_enabled (as_u8 (effective_level cfg)) kind
      ≡ (cfg.console_enabled && leb (as_u8 cfg.console_level) (as_u8 (level_for_event_kind kind)))
        || (cfg.file_enabled && leb (as_u8 cfg.file_level) (as_u8 (level_for_event_kind kind)))
unfolding level_enabled effective_level
threshold_lem cfg kind =
    let k = as_u8 (level_for_event_kind kind) in
    let above : as_u8 (effective_level cfg)
        ≡ lower_number cfg.file_enabled (as_u8 cfg.file_level)
            (lower_number cfg.console_enabled (as_u8 cfg.console_level) 4) =
      as_u8-lower cfg.file_enabled cfg.file_level (lower cfg.console_enabled cfg.console_level off)
      ∙ ap (lower_number cfg.file_enabled (as_u8 cfg.file_level))
          (as_u8-lower cfg.console_enabled cfg.console_level off) in
    ap (λ n. leb n k) above
    ∙ leb-lower_number cfg.console_enabled cfg.file_enabled (as_u8 cfg.console_level)
        (as_u8 cfg.file_level) k (kind_below_off kind)

-- By the kind of the record.
by_kind :
    (cfg : Config) (r : Record) (k : RecordKind)
    → r.kind ≡ k
    → enabled_for_record (as_u8 (effective_level cfg)) r ≡ elim k [
      | scope_exit outcome duration ↦ true
      | event kind name fields ↦
          (cfg.console_enabled && record_enabled_at_level r cfg.console_level)
          || (cfg.file_enabled && record_enabled_at_level r cfg.file_level)
    ]
unfolding enabled_for_record record_enabled_at_level
by_kind cfg r (event kind name fields) e =
    rw (enabled_for_record, record_enabled_at_level, e) (threshold_lem cfg kind)
by_kind cfg r (scope_exit outcome duration) e = rw (enabled_for_record, e)

-- For every configuration and every record, the fast path under the effective level lets the record
-- through exactly where it is an exit or some enabled sink's own filter does: no sink loses an event to
-- the fast path, and no event passes it that every enabled sink would drop.
pub enabled_for_record-effective_level :
    (cfg : Config) (r : Record)
    → enabled_for_record (as_u8 (effective_level cfg)) r ≡ elim r.kind [
      | scope_exit outcome duration ↦ true
      | event kind name fields ↦
          (cfg.console_enabled && record_enabled_at_level r cfg.console_level)
          || (cfg.file_enabled && record_enabled_at_level r cfg.file_level)
    ]
enabled_for_record-effective_level cfg r = by_kind cfg r r.kind refl
