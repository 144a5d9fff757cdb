-- ===== src/Runtime/Outputs/Settings.antt =====
-- The calls that change the outputs of the runtime (src/runtime/mod.rs), and `setup` (src/configure.rs).
-- A call that drops the result of `update_writers` returns the state alone.
pub mod History
use eventline.Prelude.{ℕ, max, String, Bool, true, false, Option, none, some, if◌then◌else◌}
use eventline.Writer.{IoResult}
use eventline.Writer.Rotation.{LogPolicy}
use eventline.Writer.Background.{WriteMode}
use eventline.Writer.Diagnostics
use eventline.Runtime
use eventline.Runtime.Levels.{LogLevel, debug, info, FileFormat, text, jsonl, Config, as_u8}
use eventline.Runtime.Header.{RunHeader}
use eventline.Runtime.Outputs.{Outputs, Devices, state_of, with_state}
use eventline.Runtime.Outputs.Update.{update_writers, installed_writer}

-- `FileSetup`.
pub data FileSetup : Type 0 where
  off_file : FileSetup
  plain_file : String → FileSetup
  jsonl_file : String → FileSetup
  rotating_file : String → LogPolicy → Option RunHeader → FileSetup

pub record Setup : Type 0 where
  pub verbose : Bool
  pub level : Option LogLevel
  pub console_level : Option LogLevel
  pub file_level : Option LogLevel
  pub file : Option FileSetup
  pub journal_retention : Option ℕ

-- A file without rotation.
abbrev plain : String → FileFormat → Config → Config
plain path format cfg = record cfg {
  file_enabled = true;
  file_path = some path;
  file_format = format;
  file_policy_max_bytes = none;
  file_policy_keep_backups = none;
}

abbrev rotating : String → LogPolicy → Config → Config
rotating path policy cfg = record cfg {
  file_enabled = true;
  file_path = some path;
  file_policy_max_bytes = some policy.max_bytes;
  file_policy_keep_backups = some policy.keep_backups;
}

abbrev no_file : Config → Config
no_file cfg = record cfg {
  file_enabled = false;
  file_path = none;
  file_policy_max_bytes = none;
  file_policy_keep_backups = none;
}

abbrev or_level : Option LogLevel → LogLevel → LogLevel
or_level none shared = shared
or_level (some level) shared = level

-- The file part of the change that `apply_setup` makes.
setup_file : Option FileSetup → Config → Config
setup_file none cfg = cfg
setup_file (some off_file) cfg = no_file cfg
setup_file (some (plain_file path)) cfg = plain path text cfg
setup_file (some (jsonl_file path)) cfg = plain path jsonl cfg
setup_file (some (rotating_file path policy _)) cfg = rotating path policy cfg

setup_header : Option FileSetup → Option RunHeader
setup_header none = none
setup_header (some off_file) = none
setup_header (some (plain_file path)) = none
setup_header (some (jsonl_file path)) = none
setup_header (some (rotating_file _ _ header)) = header

setup_force : Option FileSetup → Bool
setup_force none = false
setup_force (some off_file) = false
setup_force (some (plain_file path)) = true
setup_force (some (jsonl_file path)) = true
setup_force (some (rotating_file _ _ _)) = true

-- `level.unwrap_or(..)`, by `verbose`.
abbrev pub shared_level : Setup → LogLevel
shared_level s = or_level s.level (if s.verbose then debug else info)

-- The change that `apply_setup` makes.
unfoldable pub setup_change : Setup → Config → Config
unfolding setup_file
setup_change s cfg = setup_file s.file (record cfg {
  console_enabled = s.verbose;
  console_level = or_level s.console_level (shared_level s);
  file_level = or_level s.file_level (shared_level s);
  max_journal_records = elim s.journal_retention [
    | none ↦ cfg.max_journal_records
    | some n ↦ max n 1
  ];
})

module _ {W D : Type 0} (devices : Devices W D) where
  -- `update_writers(change, None, false)`, whose result is dropped.
  abbrev changed : (Config → Config) → Outputs W D → Outputs W D
  changed change o = (update_writers devices change none false o).0

  -- `init_sync`, on a runtime that is there.
  unfoldable pub init_sync : Outputs W D → Outputs W D
  init_sync = changed (λ cfg. cfg)

  unfoldable pub enable_console_output : Bool → Outputs W D → Outputs W D
  enable_console_output on = changed (λ cfg. record cfg { console_enabled = on })

  unfoldable pub set_console_level : LogLevel → Outputs W D → Outputs W D
  set_console_level level = changed (λ cfg. record cfg { console_level = level })

  unfoldable pub enable_console_color : Bool → Outputs W D → Outputs W D
  enable_console_color on = changed (λ cfg. record cfg { console_color = on })

  unfoldable pub enable_console_scope_labels : Bool → Outputs W D → Outputs W D
  enable_console_scope_labels on = changed (λ cfg. record cfg { console_show_scope = on })

  unfoldable pub enable_console_scope_exits : Bool → Outputs W D → Outputs W D
  enable_console_scope_exits on = changed (λ cfg. record cfg { console_show_scope_exit = on })

  unfoldable pub enable_console_duration : Bool → Outputs W D → Outputs W D
  enable_console_duration on = changed (λ cfg. record cfg { console_duration = on })

  unfoldable pub enable_console_timestamp : Bool → Outputs W D → Outputs W D
  enable_console_timestamp on = changed (λ cfg. record cfg { console_timestamp = on })

  unfoldable pub enable_file_output : String → Outputs W D → Outputs W D × IoResult
  enable_file_output path = update_writers devices (plain path text) none true

  unfoldable pub set_file_level : LogLevel → Outputs W D → Outputs W D
  set_file_level level = changed (λ cfg. record cfg { file_level = level })

  unfoldable pub set_file_format : FileFormat → Outputs W D → Outputs W D
  set_file_format format = changed (λ cfg. record cfg { file_format = format })

  unfoldable pub set_writer_mode : WriteMode → Outputs W D → Outputs W D × IoResult
  set_writer_mode mode =
      update_writers devices (λ cfg. record cfg { writer_mode = mode }) none false

  unfoldable pub enable_file_output_jsonl : String → Outputs W D → Outputs W D × IoResult
  enable_file_output_jsonl path = update_writers devices (plain path jsonl) none true

  unfoldable pub enable_file_output_rotating :
      String → LogPolicy → Option RunHeader → Outputs W D → Outputs W D × IoResult
  enable_file_output_rotating path policy header =
      update_writers devices (rotating path policy) header true

  unfoldable pub disable_file_output : Outputs W D → Outputs W D
  disable_file_output = changed no_file

  unfoldable pub disable_all_output : Outputs W D → Outputs W D
  disable_all_output = changed (λ cfg. no_file (record cfg { console_enabled = false }))

  -- `set_journal_retention`, on the runtime alone.
  unfoldable pub set_journal_retention : ℕ → Outputs W D → Outputs W D
  set_journal_retention n o = record o { runtime = Runtime.set_journal_retention o.runtime n }

  -- `set_log_level`, on the threshold of the fast path.
  unfoldable pub set_log_level : LogLevel → Outputs W D → Outputs W D
  set_log_level level o = record o { log_level = as_u8 level }

  -- `clear`, on a thread, with the diagnostics.
  unfoldable pub clear : ℕ → Outputs W D → Outputs W D
  clear t o =
      let rt = Runtime.clear (installed_writer devices) o.runtime t in
      record o {
        runtime = record rt {
          writer = with_state (Diagnostics.clear (state_of rt.writer)) rt.writer;
        };
      }

  -- `apply_setup`.
  unfoldable pub apply_setup : Setup → Outputs W D → Outputs W D × IoResult
  unfolding setup_change setup_header setup_force
  apply_setup s = update_writers devices (setup_change s) (setup_header s.file) (setup_force s.file)
