-- ===== src/Runtime/Outputs/Update.antt =====
-- `update_writers` and `build_writers` of src/runtime/mod.rs.
pub mod Filters
pub mod Consistent
use eventline.Prelude.{
  ℕ, ◌+◌, ◌≡◌, refl, ◌⊎◌, inl, inr, max, String, Bool, true, false, Option, none, some, List, [],
  ◌∷◌, ◌++◌, ◌&&◌, not, ◌==◌, if◌then◌else◌,
}
use eventline.Core.{Record, Scope}
use eventline.Writer.{Writer, IoError, IoResult}
use eventline.Writer.Multi.{multi_writer}
use eventline.Writer.Rotation.{LogPolicy}
use eventline.Writer.Diagnostics.{WriterState, record_error}
use eventline.Writer.Diagnostics
use eventline.Writer.Background.{Msg, WriteMode, AsyncWriter}
use eventline.Writer.Background
use eventline.Journal.{Journal}
use eventline.Journal.Calls
use eventline.Load.{same_string, same_option}
use eventline.Runtime.{Runtime}
use eventline.Runtime.Levels.{
  LogLevel, debug, info, FileFormat, text, jsonl, Config, file_policy, effective_level, as_u8,
}
use eventline.Runtime.Filtered.{FilteredWriter, filtered_writer, NoopWriter, noop_writer, noop}
use eventline.Runtime.Header.{RunHeader}
use eventline.Runtime.Outputs.{
  ConsoleStyle, FileStyle, Boxed, no_output, multi, Installed, initial, background, Devices,
  Outputs, state_of, with_state, is_unchanged, is_jsonl, writer_queue_cap, console_style,
  file_style, operation, boxed_writer,
}

module _ {W D : Type 0} (devices : Devices W D) where
  abbrev pub mw : Writer (List (FilteredWriter W))
  mw = multi_writer (filtered_writer devices.sink)

  abbrev pub box : Writer (Boxed W)
  box = boxed_writer mw

  -- The writers of a step of `build_writers`, with the world behind it.
  abbrev Built : Type 0 → Type 0
  Built A = D × (IoError ⊎ A)

  abbrev pub console_writers : Config → List (FilteredWriter W)
  console_writers cfg =
      if cfg.console_enabled
      then record { inner = devices.stdout (console_style cfg); min_level = cfg.console_level } ∷ []
      else []

  -- The header is written to a file that could be opened.
  with_header : Option RunHeader → Built W → Built W
  with_header none built = built
  with_header (some h) (d, inl e) = (d, inl e)
  with_header (some h) (d, inr w) = devices.write_header h w d

  file_writer : Config → Option RunHeader → String → D → Built W
  unfolding with_header file_policy
  file_writer cfg header path d = elim (file_policy cfg) [
    | some policy ↦ with_header header (devices.open_rotating path (file_style cfg) policy d)
    | none ↦ devices.open_file path (file_style cfg) d
  ]

  filtered : Config → Built W → Built (List (FilteredWriter W))
  filtered cfg (d, inl e) = (d, inl e)
  filtered cfg (d, inr w) = (d, inr (record { inner = w; min_level = cfg.file_level } ∷ []))

  file_writers : Config → Option RunHeader → Option String → D → Built (List (FilteredWriter W))
  unfolding file_writer filtered
  file_writers cfg header none d = (d, inr [])
  file_writers cfg header (some path) d =
      if cfg.file_enabled then filtered cfg (file_writer cfg header path d) else (d, inr [])

  -- The scopes of the journal, up to the first that fails.
  write_scopes : List Scope → List (FilteredWriter W) → IoError ⊎ List (FilteredWriter W)
  write_scopes [] ws = inr ws
  write_scopes (s ∷ scopes) ws =
      let (ws', r) = mw.write_scope s ws in
      let rest = write_scopes scopes ws' in elim r [ none ↦ rest | some e ↦ inl e ]

  boxed : IoError ⊎ List (FilteredWriter W) → IoError ⊎ Boxed W
  boxed (inl e) = inl e
  boxed (inr ws) = inr (multi ws)

  -- The end of `build_writers`.
  box_up : Config → Journal NoopWriter → List (FilteredWriter W) → IoError ⊎ Boxed W
  unfolding boxed write_scopes is_jsonl
  box_up cfg j [] = inr no_output
  box_up cfg j (w ∷ ws) =
      let named = mw.set_run_id j.run_id (w ∷ ws) in
      boxed (
        if cfg.file_enabled && is_jsonl cfg.file_format
        then write_scopes (Calls.scopes j) named
        else inr named)

  box_up_built : Config → Journal NoopWriter → Built (List (FilteredWriter W)) → Built (Boxed W)
  unfolding box_up
  box_up_built cfg j (d, inl e) = (d, inl e)
  box_up_built cfg j (d, inr files) = (d, box_up cfg j (console_writers cfg ++ files))

  unfoldable pub build_writers :
      Config → Option RunHeader → Journal NoopWriter → D → Built (Boxed W)
  unfolding file_writers box_up_built
  build_writers cfg header j d = box_up_built cfg j (file_writers cfg header cfg.file_path d)

  -- `writer.flush()` and the drop of a writer that is replaced.
  unfoldable pub flush_installed : Installed W → Installed W × IoResult
  flush_installed (initial state) = (initial state, none)
  flush_installed (background a) =
      let (a', r) = Background.flush box devices.panics a in (background a', r)

  -- The calls of the writer of the runtime: a `NoopWriter`, or a background writer.
  abbrev with_result : AsyncWriter (Boxed W) × IoResult → Installed W × IoResult
  with_result (a, r) = (background a, r)

  wants_metadata : Installed W → Bool
  wants_metadata (initial state) = false
  wants_metadata (background a) = a.scope_metadata

  set_run_id : String → Installed W → Installed W
  set_run_id id (initial state) = initial state
  set_run_id id (background a) = background (Background.set_run_id box devices.panics id a)

  write_scope : Scope → Installed W → Installed W × IoResult
  write_scope s (initial state) = (initial state, none)
  write_scope s (background a) = with_result (Background.write_scope box devices.panics s a)

  write_record : Record → Option Scope → Installed W → Installed W × IoResult
  write_record r s (initial state) = (initial state, none)
  write_record r s (background a) = with_result (Background.write_record box devices.panics r s a)

  unfoldable pub installed_writer : Writer (Installed W)
  unfolding wants_metadata set_run_id write_scope write_record flush_installed
  installed_writer = record {
    wants_scope_metadata = wants_metadata;
    set_run_id = set_run_id;
    write_scope = write_scope;
    write_record = write_record;
    flush = flush_installed;
  }

  unfoldable pub drop_installed : Installed W → WriterState
  drop_installed (initial state) = state
  drop_installed (background a) = (Background.drop_writer box devices.panics a).state

  spawned : WriteMode → WriterState → Built (Boxed W) → Built (AsyncWriter (Boxed W))
  spawned mode state (d, inl e) = (d, inl e)
  spawned mode state (d, inr b) = (
    d,
    Background.try_spawn_with_state box devices.panics (devices.thread_denied d) b writer_queue_cap
        mode state,
  )

  -- The end of `update_writers`: the failed candidate is noted, or the new writer takes the place of the
  -- old one, which is dropped.
  replace :
      Config → Outputs W D → Installed W → Built (AsyncWriter (Boxed W)) → Outputs W D × IoResult
  unfolding drop_installed
  replace cfg o old (d, inl e) = (
    record o {
      runtime = record (o.runtime) {
        writer = with_state (record_error (operation cfg) e (state_of old)) old;
      };
      world = d;
    },
    some e,
  )
  replace cfg o old (d, inr a) = (
    record {
      runtime = record (o.runtime) {
        writer = background (record a { state = drop_installed old });
        config = cfg;
        last_cfg = some cfg;
      };
      log_level = as_u8 (effective_level cfg);
      world = d;
    },
    none,
  )

  -- `update_writers`.
  unfoldable pub update_writers :
      (Config → Config) → Option RunHeader → Bool → Outputs W D → Outputs W D × IoResult
  unfolding is_unchanged replace spawned build_writers flush_installed
  update_writers change header force o =
      let cfg = change o.runtime.config in
      if is_unchanged force o.runtime.last_cfg cfg
      then (o, none)
      else (let old = (flush_installed o.runtime.writer).0 in
          replace cfg o old (
            spawned cfg.writer_mode (state_of old)
              (build_writers cfg header o.runtime.journal o.world)))
