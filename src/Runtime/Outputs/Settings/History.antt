-- ===== src/Runtime/Outputs/Settings/History.antt =====
-- Sequences of the calls that change the outputs (src/runtime/mod.rs).
use eventline.Prelude.{
  ℕ, ◌≡◌, ◌⊎◌, refl, sym, ap, ◌∙◌, inl, inr, max, String, Bool, true, false, Option, none, some,
  List, [], ◌∷◌, ◌||◌, arith, subst, if_when,
}
use eventline.Writer.{IoError, IoResult}
use eventline.Writer.Diagnostics.{WriterState, record_error}
use eventline.Writer.Rotation.{LogPolicy}
use eventline.Writer.Background.{WriteMode}
use eventline.Runtime
use eventline.Runtime.Levels.{LogLevel, FileFormat, Config, effective_level, as_u8}
use eventline.Runtime.Header.{RunHeader}
use eventline.Runtime.Outputs.{
  Outputs, Devices, Installed, initial, state_of, with_state, operation, same_config, is_unchanged,
}
use eventline.Runtime.Outputs.Equality.{same_config_refl}
use eventline.Runtime.Outputs.Update.{update_writers, flush_installed}
use eventline.Runtime.Outputs.Update.Consistent.{update_writers-Outcome}
use eventline.Runtime.Outputs.Settings
use eventline.Runtime.Outputs.Settings.{Setup, setup_change, setup_header, setup_force}

-- A call that changes the outputs.
pub data Change : Type 0 where
  inits : Change
  enables_console : Bool → Change
  sets_console_level : LogLevel → Change
  colors_console : Bool → Change
  labels_scopes : Bool → Change
  shows_exits : Bool → Change
  shows_duration : Bool → Change
  shows_timestamp : Bool → Change
  opens_file : String → Change
  opens_jsonl : String → Change
  opens_rotating : String → LogPolicy → Option RunHeader → Change
  sets_file_level : LogLevel → Change
  sets_file_format : FileFormat → Change
  sets_mode : WriteMode → Change
  closes_file : Change
  closes_all : Change
  retains : ℕ → Change
  sets_up : Setup → Change
  sets_log_level : LogLevel → Change

-- `set_log_level`, which sets the level of the fast path alone.
abbrev pub is_level_call : Change → Bool
is_level_call (sets_log_level level) = true
is_level_call _ = false

-- Whether some call is one.
abbrev pub sets_level : List Change → Bool
sets_level [] = false
sets_level (c ∷ cs) = is_level_call c || sets_level cs

-- What `set_journal_retention` makes of the last installed configuration.
abbrev with_retention : ℕ → Option Config → Option Config
with_retention n none = none
with_retention n (some cfg) = some (record cfg { max_journal_records = max n 1 })

or_false : (b : Bool) → b || false ≡ b
or_false b = ground arith

or_assoc : (a b c : Bool) → (a || b) || c ≡ a || (b || c)
or_assoc a b c = ground arith

module _ {W D : Type 0} (devices : Devices W D) where
  -- The state behind a call, whatever it returns.
  abbrev pub apply : Change → Outputs W D → Outputs W D
  apply inits o = Settings.init_sync devices o
  apply (enables_console on) o = Settings.enable_console_output devices on o
  apply (sets_console_level level) o = Settings.set_console_level devices level o
  apply (colors_console on) o = Settings.enable_console_color devices on o
  apply (labels_scopes on) o = Settings.enable_console_scope_labels devices on o
  apply (shows_exits on) o = Settings.enable_console_scope_exits devices on o
  apply (shows_duration on) o = Settings.enable_console_duration devices on o
  apply (shows_timestamp on) o = Settings.enable_console_timestamp devices on o
  apply (opens_file path) o = (Settings.enable_file_output devices path o).0
  apply (opens_jsonl path) o = (Settings.enable_file_output_jsonl devices path o).0
  apply (opens_rotating path policy header) o =
      (Settings.enable_file_output_rotating devices path policy header o).0
  apply (sets_file_level level) o = Settings.set_file_level devices level o
  apply (sets_file_format format) o = Settings.set_file_format devices format o
  apply (sets_mode mode) o = (Settings.set_writer_mode devices mode o).0
  apply closes_file o = Settings.disable_file_output devices o
  apply closes_all o = Settings.disable_all_output devices o
  apply (retains n) o = Settings.set_journal_retention devices n o
  apply (sets_up s) o = (Settings.apply_setup devices s o).0
  apply (sets_log_level level) o = Settings.set_log_level devices level o

  abbrev pub apply_all : List Change → Outputs W D → Outputs W D
  apply_all [] o = o
  apply_all (c ∷ cs) o = apply_all cs (apply c o)

  -- No change was installed yet and the runtime has its first writer; or the last one that was is the
  -- configuration in force, and the level of the fast path is its effective one, unless it was set since.
  abbrev InForce : Bool → Outputs W D → Type 0
  InForce set o =
      ((o.runtime.last_cfg ≡ none) × ((state : WriterState) × (o.runtime.writer ≡ initial state)))
      ⊎ ((o.runtime.last_cfg ≡ some o.runtime.config)
          × (set ≡ false → o.log_level ≡ as_u8 (effective_level o.runtime.config)))

  -- A failure keeps the first writer.
  first_writer :
      (operation : String) (e : IoError) (w : Installed W) (state : WriterState)
      → w ≡ initial state
      → let old = (flush_installed devices w).0 in
        (state' : WriterState) × (with_state (record_error operation e (state_of old)) old
          ≡ initial state')
  unfolding flush_installed
  first_writer operation e w state first = (
    record_error operation e state,
    ap
        (λ (w : Installed W).
          let old = (flush_installed devices w).0 in
          with_state (record_error operation e (state_of old)) old)
        first,
  )

  update_writers-InForce :
      (set : Bool) (change : Config → Config) (header : Option RunHeader) (force : Bool)
      (o : Outputs W D)
      → InForce set o
      → InForce set (update_writers devices change header force o).0
  update_writers-InForce set change header force o h =
      let last_of = λ (rt : Runtime.Runtime (Installed W)). rt.last_cfg in
      let config_of = λ (rt : Runtime.Runtime (Installed W)). rt.config in
      elim (update_writers-Outcome devices change header force o) [
        | inl (_, _, same, _) ↦ subst (InForce set) (sym same) h
        | inr (inl (e, _, runtime, level)) ↦ elim h [
          | inl (unset, (state, first)) ↦
              let (state', kept) =
                first_writer (operation (change o.runtime.config)) e o.runtime.writer state first in
              inl (
                ap last_of runtime ∙ unset,
                (state', ap (λ (rt : Runtime.Runtime (Installed W)). rt.writer) runtime ∙ kept),
              )
          | inr (last, right) ↦ inr (
            ap last_of runtime ∙ last ∙ ap (λ rt. some (config_of rt)) (sym runtime),
            λ free.
                level
                ∙ right free
                ∙ ap (λ rt. as_u8 (effective_level (config_of rt))) (sym runtime),
          )
        ]
        | inr (inr (a, _, runtime, level, _, _, _, _, _)) ↦ inr (
          ap last_of runtime ∙ ap (λ rt. some (config_of rt)) (sym runtime),
          λ _. level ∙ ap (λ rt. as_u8 (effective_level (config_of rt))) (sym runtime),
        )
      ]

  set_journal_retention-InForce :
      (set : Bool) (n : ℕ) (o : Outputs W D)
      → InForce set o
      → InForce set (Settings.set_journal_retention devices n o)
  unfolding Settings.set_journal_retention Runtime.set_journal_retention effective_level
  set_journal_retention-InForce set n o (inl (unset, first)) =
      inl (ap (with_retention n) unset, first)
  set_journal_retention-InForce set n o (inr (last, right)) =
      inr (ap (with_retention n) last, right)

  weaken : (set : Bool) (o : Outputs W D) → InForce set o → InForce (set || false) o
  weaken set o h = subst (λ b. InForce b o) (sym (or_false set)) h

  true_not_free : (set : Bool) → ¬ ((set || true) ≡ false)
  true_not_free false = ground arith
  true_not_free true = ground arith

  apply-InForce :
      (c : Change) (o : Outputs W D) (set : Bool)
      → InForce set o
      → InForce (set || is_level_call c) (apply c o)
  unfolding Settings.init_sync Settings.enable_console_output Settings.set_console_level
      Settings.enable_console_color Settings.enable_console_scope_labels
      Settings.enable_console_scope_exits Settings.enable_console_duration
      Settings.enable_console_timestamp Settings.enable_file_output Settings.set_file_level
      Settings.set_file_format Settings.set_writer_mode Settings.enable_file_output_jsonl
      Settings.enable_file_output_rotating Settings.disable_file_output Settings.disable_all_output
      Settings.apply_setup Settings.set_log_level
  apply-InForce inits o set h = weaken set (apply inits o) (update_writers-InForce set _ _ _ o h)
  apply-InForce (enables_console on) o set h =
      weaken set (apply (enables_console on) o) (update_writers-InForce set _ _ _ o h)
  apply-InForce (sets_console_level level) o set h =
      weaken set (apply (sets_console_level level) o) (update_writers-InForce set _ _ _ o h)
  apply-InForce (colors_console on) o set h =
      weaken set (apply (colors_console on) o) (update_writers-InForce set _ _ _ o h)
  apply-InForce (labels_scopes on) o set h =
      weaken set (apply (labels_scopes on) o) (update_writers-InForce set _ _ _ o h)
  apply-InForce (shows_exits on) o set h =
      weaken set (apply (shows_exits on) o) (update_writers-InForce set _ _ _ o h)
  apply-InForce (shows_duration on) o set h =
      weaken set (apply (shows_duration on) o) (update_writers-InForce set _ _ _ o h)
  apply-InForce (shows_timestamp on) o set h =
      weaken set (apply (shows_timestamp on) o) (update_writers-InForce set _ _ _ o h)
  apply-InForce (opens_file path) o set h =
      weaken set (apply (opens_file path) o) (update_writers-InForce set _ _ _ o h)
  apply-InForce (opens_jsonl path) o set h =
      weaken set (apply (opens_jsonl path) o) (update_writers-InForce set _ _ _ o h)
  apply-InForce (opens_rotating path policy header) o set h =
      weaken set (apply (opens_rotating path policy header) o)
        (update_writers-InForce set _ _ _ o h)
  apply-InForce (sets_file_level level) o set h =
      weaken set (apply (sets_file_level level) o) (update_writers-InForce set _ _ _ o h)
  apply-InForce (sets_file_format format) o set h =
      weaken set (apply (sets_file_format format) o) (update_writers-InForce set _ _ _ o h)
  apply-InForce (sets_mode mode) o set h =
      weaken set (apply (sets_mode mode) o) (update_writers-InForce set _ _ _ o h)
  apply-InForce closes_file o set h =
      weaken set (apply closes_file o) (update_writers-InForce set _ _ _ o h)
  apply-InForce closes_all o set h =
      weaken set (apply closes_all o) (update_writers-InForce set _ _ _ o h)
  apply-InForce (retains n) o set h =
      weaken set (apply (retains n) o) (set_journal_retention-InForce set n o h)
  apply-InForce (sets_up s) o set h =
      weaken set (apply (sets_up s) o) (update_writers-InForce set _ _ _ o h)
  apply-InForce (sets_log_level level) o set (inl h) = inl h
  apply-InForce (sets_log_level level) o set (inr (last, _)) =
      inr (last, λ free. absurd (true_not_free set free))

  apply_all_keeps :
      (cs : List Change) (o : Outputs W D) (set : Bool)
      → InForce set o
      → InForce (set || sets_level cs) (apply_all cs o)
  apply_all_keeps [] o set h = weaken set o h
  apply_all_keeps (c ∷ cs) o set h =
      subst (λ b. InForce b (apply_all cs (apply c o)))
        (or_assoc set (is_level_call c) (sets_level cs))
        (apply_all_keeps cs (apply c o) (set || is_level_call c) (apply-InForce c o set h))

  repeated :
      (change : Config → Config) (header : Option RunHeader) (o : Outputs W D)
      → o.runtime.last_cfg ≡ some o.runtime.config
      → change o.runtime.config ≡ o.runtime.config
      → update_writers devices change header false o ≡ (o, none)
  unfolding update_writers is_unchanged
  repeated change header o last same =
      let cfg = o.runtime.config in
      if_when (λ (r : Outputs W D × IoResult). r ≡ (o, none))
        (is_unchanged false o.runtime.last_cfg (change cfg)) _
        (ap (λ l. is_unchanged false l (change cfg)) last
          ∙ ap (same_config cfg) same
          ∙ same_config_refl cfg)
        refl

  -- After any sequence of these calls, successful or not, on a runtime that has its first writer and no
  -- installed configuration: either none was installed and the runtime has a first writer still; or a
  -- change that is not forced and asks for the configuration as it is does nothing and succeeds, and, if
  -- no call was `set_log_level`, the level of the fast path is the effective one of the configuration.
  pub apply_all-InForce :
      (cs : List Change) (o : Outputs W D) (state : WriterState)
      → o.runtime.last_cfg ≡ none
      → o.runtime.writer ≡ initial state
      → let o' = apply_all cs o in
        ((o'.runtime.last_cfg ≡ none)
          × ((state' : WriterState) × (o'.runtime.writer ≡ initial state')))
        ⊎ ((sets_level cs ≡ false → o'.log_level ≡ as_u8 (effective_level o'.runtime.config))
            × ((change : Config → Config) (header : Option RunHeader)
                → change o'.runtime.config ≡ o'.runtime.config
                → update_writers devices change header false o' ≡ (o', none)))
  apply_all-InForce cs o state fresh first =
      elim (apply_all_keeps cs o false (inl (fresh, (state, first)))) [
        | inl unset ↦ inl unset
        | inr (last, right) ↦
            inr (right, λ change header same. repeated change header (apply_all cs o) last same)
      ]
