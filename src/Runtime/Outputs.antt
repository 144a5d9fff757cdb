-- ===== src/Runtime/Outputs.antt =====
-- The outputs of the runtime: `update_writers`, `build_writers`, `apply_setup` and the calls that change the
-- configuration (src/runtime/mod.rs, src/configure.rs). What opening a console or a file does is a
-- parameter, `Devices`, with the state of the world outside.
pub mod Equality
pub mod Update
pub mod Settings
use eventline.Prelude.{
  ℕ, ◌+◌, ◌≡◌, refl, ◌⊎◌, inl, inr, max, String, Bool, true, false, Option, none, some, List, [],
  ◌∷◌, ◌++◌, ◌&&◌, not, ◌==◌, if◌then◌else◌,
}
use eventline.Core.{Record, Scope}
use eventline.Writer.{Writer, IoError, IoResult}
use eventline.Writer.Multi.{multi_writer}
use eventline.Writer.Rotation.{LogPolicy}
use eventline.Writer.Diagnostics.{WriterState, record_error}
use eventline.Writer.Diagnostics
use eventline.Writer.Background.{Msg, WriteMode, AsyncWriter}
use eventline.Writer.Background
use eventline.Journal.{Journal}
use eventline.Journal.Calls
use eventline.Load.{same_string, same_option}
use eventline.Runtime.{Runtime}
use eventline.Runtime.Levels.{
  LogLevel, debug, info, FileFormat, text, jsonl, Config, file_policy, effective_level, as_u8,
}
use eventline.Runtime.Filtered.{FilteredWriter, filtered_writer, NoopWriter, noop_writer, noop}
use eventline.Runtime.Header.{RunHeader}

pub record ConsoleStyle : Type 0 where
  pub color : Bool
  pub show_scope : Bool
  pub show_scope_exit : Bool
  pub show_duration : Bool
  pub show_timestamp : Bool

pub record FileStyle : Type 0 where
  pub show_timestamp : Bool
  pub show_scope : Bool
  pub format : FileFormat

-- What `build_writers` boxes: no output, or the filtered console and file.
pub data Boxed (W : Type 0) : Type 0 where
  no_output : Boxed W
  multi : List (FilteredWriter W) → Boxed W

-- The writer of the runtime, with the diagnostics that are shared with it: none yet, or a background
-- writer.
pub data Installed (W : Type 0) : Type 0 where
  initial : WriterState → Installed W
  background : AsyncWriter (Boxed W) → Installed W

pub record Devices (W D : Type 0) : Type 0 where
  pub sink : Writer W
  pub stdout : ConsoleStyle → W
  pub open_file : String → FileStyle → D → D × (IoError ⊎ W)
  pub open_rotating : String → FileStyle → LogPolicy → D → D × (IoError ⊎ W)
  pub write_header : RunHeader → W → D → D × (IoError ⊎ W)
  pub thread_denied : D → Option IoError
  pub panics : Msg → Boxed W → Bool

pub record Outputs (W D : Type 0) : Type 0 where
  pub runtime : Runtime (Installed W)
  pub log_level : ℕ
  pub world : D

abbrev pub state_of : {W : Type 0} → Installed W → WriterState
state_of (initial state) = state
state_of (background a) = a.state

abbrev pub with_state : {W : Type 0} → WriterState → Installed W → Installed W
with_state state (initial _) = initial state
with_state state (background a) = background (record a { state = state })

same_bool : Bool → Bool → Bool
same_bool true b = b
same_bool false b = not b

is_jsonl : FileFormat → Bool
is_jsonl jsonl = true
is_jsonl text = false

is_blocking : WriteMode → Bool
is_blocking WriteMode.blocking = true
is_blocking WriteMode.best_effort = false

same_file : Config → Config → Bool
unfolding same_bool is_jsonl is_blocking
same_file a b =
    same_bool a.file_enabled b.file_enabled
    && (as_u8 a.file_level == as_u8 b.file_level
        && (same_option same_string a.file_path b.file_path
            && (same_bool (is_jsonl a.file_format) (is_jsonl b.file_format)
                && (same_option ◌==◌ a.file_policy_max_bytes b.file_policy_max_bytes
                    && (same_option ◌==◌ a.file_policy_keep_backups b.file_policy_keep_backups
                        && (a.max_journal_records == b.max_journal_records
                            && same_bool (is_blocking a.writer_mode)
                                (is_blocking b.writer_mode)))))))

-- `a == b` on configurations.
unfoldable pub same_config : Config → Config → Bool
unfolding same_file same_bool as_u8
same_config a b =
    same_bool a.console_enabled b.console_enabled
    && (as_u8 a.console_level == as_u8 b.console_level
        && (same_bool a.console_color b.console_color
            && (same_bool a.console_show_scope b.console_show_scope
                && (same_bool a.console_show_scope_exit b.console_show_scope_exit
                    && (same_bool a.console_duration b.console_duration
                        && (same_bool a.console_timestamp b.console_timestamp && same_file a b))))))

-- `!force && last.as_ref() == Some(&cfg)`.
unfoldable pub is_unchanged : Bool → Option Config → Config → Bool
unfolding same_config
is_unchanged force none cfg = false
is_unchanged force (some last) cfg = not force && same_config last cfg

-- `WRITER_QUEUE_CAP`.
abbrev pub writer_queue_cap : ℕ
writer_queue_cap = 2048

abbrev pub console_style : Config → ConsoleStyle
console_style cfg = record {
  color = cfg.console_color;
  show_scope = cfg.console_show_scope;
  show_scope_exit = cfg.console_show_scope_exit;
  show_duration = cfg.console_duration;
  show_timestamp = cfg.console_timestamp;
}

abbrev pub file_style : Config → FileStyle
file_style cfg = record { show_timestamp = true; show_scope = true; format = cfg.file_format }

-- The context of a failed setup; the path is left out.
abbrev pub operation : Config → String
operation cfg =
    if cfg.file_enabled
    then elim cfg.file_path [
      | none ↦ "configuring output"
      | some _ ↦ "configuring output for log file"
    ]
    else "configuring output"

module _ {W : Type 0} (mw : Writer (List (FilteredWriter W))) where
  -- What a box does, by what the `MultiWriter` does.
  boxed_result : List (FilteredWriter W) × IoResult → Boxed W × IoResult
  boxed_result (ws, r) = (multi ws, r)

  boxed_scope : Scope → Boxed W → Boxed W × IoResult
  unfolding boxed_result
  boxed_scope s no_output = (no_output, none)
  boxed_scope s (multi ws) = boxed_result (mw.write_scope s ws)

  boxed_record : Record → Option Scope → Boxed W → Boxed W × IoResult
  unfolding boxed_result
  boxed_record r s no_output = (no_output, none)
  boxed_record r s (multi ws) = boxed_result (mw.write_record r s ws)

  boxed_flush : Boxed W → Boxed W × IoResult
  unfolding boxed_result
  boxed_flush no_output = (no_output, none)
  boxed_flush (multi ws) = boxed_result (mw.flush ws)

  boxed_wants : Boxed W → Bool
  boxed_wants no_output = false
  boxed_wants (multi ws) = mw.wants_scope_metadata ws

  boxed_set_run_id : String → Boxed W → Boxed W
  boxed_set_run_id id no_output = no_output
  boxed_set_run_id id (multi ws) = multi (mw.set_run_id id ws)

  -- `Box<dyn Writer>`, of a `NoopWriter` or a `MultiWriter`.
  unfoldable pub boxed_writer : Writer (Boxed W)
  unfolding boxed_scope boxed_record boxed_flush boxed_wants boxed_set_run_id
  boxed_writer = record {
    wants_scope_metadata = boxed_wants;
    set_run_id = boxed_set_run_id;
    write_scope = boxed_scope;
    write_record = boxed_record;
    flush = boxed_flush;
  }
