-- ===== src/Tests/Settings.antt =====
-- Concrete changes of the outputs (src/runtime/mod.rs) and a header (src/runtime/run_header.rs).
use eventline.Prelude.{
  ℕ, ◌+◌, ◌≤◌, ◌≡◌, ◌⊎◌, refl, max, true, false, Option, none, some, List, [], ◌∷◌, ◌++◌, inl, inr,
  length,
}
use eventline.Core.{info}
use eventline.Writer.Rotation.{denial}
use eventline.Writer.Diagnostics.{WriterState, no_diagnostics}
use eventline.Writer.Background.{WriteMode, try_spawn_with_state}
use eventline.Runtime.Levels.{
  LogLevel, Config, default_config, as_u8, effective_level, enabled_for_record,
}
use eventline.Runtime.Header.{RunHeader, bars, label, render, render-width}
use eventline.Runtime.Outputs.{Devices, Outputs, initial}
use eventline.Runtime.Outputs.Update.{update_writers, build_writers}
use eventline.Runtime.Outputs.Update.Filters.{filters}
use eventline.Runtime.Outputs.Update.Consistent.{
  Outcome, any_enabled, update_writers-Outcome, update_writers-enabled_for_record,
}
use eventline.Runtime.Outputs.Settings.{rotating_file}
use eventline.Runtime.Outputs.Settings.History.{
  Change, inits, opens_file, sets_console_level, sets_mode, sets_up, apply_all, sets_level,
  apply_all-InForce,
}
use eventline.Tests.Buffers.{entry}
use eventline.Tests.Journals.{sink}
use eventline.Tests.Runtimes.{started}

abbrev pid : List ℕ
pid = b'7' ∷ []

-- A header whose label is longer than its width.
abbrev short_header : RunHeader
short_header = record { title = b'a' ∷ []; show_pid = true; width = 9 }

render-width_example :
    (length (render short_header pid) ≡ max 9 (length (label short_header pid) + 4))
    × (left : ℕ) × (right : ℕ) × (render short_header pid
        ≡ bars left ++ (label short_header pid ++ bars right))
    × (2 ≤ left)
    × (left ≤ right)
    × (right ≤ left + 1)
render-width_example = render-width short_header pid

-- Files that count the times they were opened; rotating ones are denied.
abbrev devices : Devices (List ℕ) ℕ
devices = record {
  sink = sink;
  stdout = λ style. [];
  open_file = λ path style d. (d + 1, inr []);
  open_rotating = λ path style policy d. (d, inl (denial "denied"));
  write_header = λ header w d. (d, inr w);
  thread_denied = λ d. none;
  panics = λ msg box. false;
}

abbrev no_outputs : Outputs (List ℕ) ℕ
no_outputs = record {
  runtime = record {
    journal = started.journal;
    writer = initial no_diagnostics;
    config = default_config;
    last_cfg = none;
    emit_count = 0;
    stacks = started.stacks;
  };
  log_level = as_u8 LogLevel.info;
  world = 0;
}

abbrev to_file : Config → Config
to_file cfg = record cfg {
  file_enabled = true;
  file_path = some "log";
  file_level = LogLevel.debug;
}

update_writers-Outcome_example :
    Outcome devices
      (to_file default_config)
      false
      no_outputs
      (update_writers devices to_file none false no_outputs)
update_writers-Outcome_example = update_writers-Outcome devices to_file none false no_outputs

update_writers-enabled_for_record_example :
    let o' = (update_writers devices to_file none true no_outputs).0 in
    (thresholds : List LogLevel) × (filters o'.runtime.writer ≡ some thresholds)
    × (any_enabled (entry 3) thresholds ≡ enabled_for_record o'.log_level (entry 3))
update_writers-enabled_for_record_example =
    update_writers-enabled_for_record devices to_file none no_outputs 3 0 none info "m" none
      (inr ("log", refl)) installs
  where
    installs : (update_writers devices to_file none true no_outputs).1 ≡ none
    installs = unfold update_writers in unfold try_spawn_with_state in unfold build_writers in refl

-- A file, a rotating file that is denied, and another level.
abbrev changes : List Change
changes =
    inits
    ∷ opens_file "log"
    ∷ sets_up (record {
      verbose = true;
      level = none;
      console_level = none;
      file_level = none;
      file = some (rotating_file "log" (record { max_bytes = 5; keep_backups = 1 }) none);
      journal_retention = some 0;
    })
    ∷ sets_console_level LogLevel.error
    ∷ sets_mode WriteMode.blocking
    ∷ []

apply_all-InForce_example :
    let o' = apply_all devices changes no_outputs in
    ((o'.runtime.last_cfg ≡ none) × ((state : WriterState) × (o'.runtime.writer ≡ initial state)))
    ⊎ ((sets_level changes ≡ false → o'.log_level ≡ as_u8 (effective_level o'.runtime.config))
        × ((change : Config → Config) (header : Option RunHeader)
            → change o'.runtime.config ≡ o'.runtime.config
            → update_writers devices change header false o' ≡ (o', none)))
apply_all-InForce_example = apply_all-InForce devices changes no_outputs no_diagnostics refl refl
