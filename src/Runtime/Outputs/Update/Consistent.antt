-- ===== src/Runtime/Outputs/Update/Consistent.antt =====
-- The configuration, the installed filters and the level of the fast path after `update_writers`
-- (src/runtime/mod.rs).
use eventline.Prelude.{
  ℕ, ◌≡◌, ◌⊎◌, refl, sym, ap, ◌∙◌, inl, inr, String, Bool, true, false, Option, none, some, List,
  [], ◌∷◌, ◌&&◌, ◌||◌, arith, if_split,
}
use eventline.Core.{Record, event, EventKind, Fields}
use eventline.Writer.{IoError, IoResult}
use eventline.Writer.Diagnostics.{record_error}
use eventline.Writer.Background.{AsyncWriter, try_spawn_with_state}
use eventline.Runtime
use eventline.Runtime.Levels.{
  LogLevel, Config, effective_level, as_u8, enabled_for_record, record_enabled_at_level,
  enabled_for_record-effective_level,
}
use eventline.Runtime.Header.{RunHeader}
use eventline.Runtime.Outputs.{
  Boxed, Installed, background, Devices, Outputs, state_of, with_state, is_unchanged, operation,
  writer_queue_cap,
}
use eventline.Runtime.Outputs.Update.{
  box, build_writers, flush_installed, drop_installed, spawned, replace, update_writers,
}
use eventline.Runtime.Outputs.Equality.{same_config-eq}
use eventline.Runtime.Outputs.Update.Filters.{box_filters, filters, wanted, build_writers-filters}

-- A change that is found unchanged is not forced, and asks for the last configuration that was installed.
unchanged-last :
    (force : Bool) (last : Option Config) (cfg : Config)
    → is_unchanged force last cfg ≡ true
    → (force ≡ false) × (last ≡ some cfg)
unfolding is_unchanged
unchanged-last force none cfg h = cc
unchanged-last true (some last) cfg h = cc
unchanged-last false (some last) cfg h = (refl, ap some (same_config-eq last cfg h))

none-ne-some : {e : IoError} → none ≡ some e → ⊥
none-ne-some h = cc

-- Whether some filter lets a record through.
abbrev pub any_enabled : Record → List LogLevel → Bool
any_enabled r [] = false
any_enabled r (level ∷ more) = record_enabled_at_level r level || any_enabled r more

wanted-enabled :
    (cfg : Config) (r : Record)
    → ((cfg.file_enabled ≡ false) ⊎ ((path : String) × (cfg.file_path ≡ some path)))
    → any_enabled r (wanted cfg)
      ≡ (cfg.console_enabled && record_enabled_at_level r cfg.console_level)
        || (cfg.file_enabled && record_enabled_at_level r cfg.file_level)
wanted-enabled cfg r h = ground arith

module _ {W D : Type 0} (devices : Devices W D) where
  -- The outcomes of a change: nothing to do, a failure that is noted, or a new background writer.
  abbrev pub Outcome : Config → Bool → Outputs W D → Outputs W D × IoResult → Type 0
  Outcome cfg force o (o', r) =
      let old = (flush_installed devices o.runtime.writer).0 in
      ((force ≡ false) × (o.runtime.last_cfg ≡ some cfg) × (o' ≡ o) × (r ≡ none))
      ⊎ (((e : IoError) × (r ≡ some e)
            × (o'.runtime ≡ record (o.runtime) {
              writer = with_state (record_error (operation cfg) e (state_of old)) old;
            })
            × (o'.log_level ≡ o.log_level))
          ⊎ ((a : AsyncWriter (Boxed W)) × (r ≡ none)
              × (o'.runtime
                  ≡ record (o.runtime) { writer = background a; config = cfg; last_cfg = some cfg })
              × (o'.log_level ≡ as_u8 (effective_level cfg))
              × (box_filters a.worker.inner ≡ wanted cfg)
              × (a.mode ≡ cfg.writer_mode)
              × (a.worker.alive ≡ true)
              × (a.queue ≡ [])
              × (a.state ≡ drop_installed devices old)))

  spawn-Outcome :
      (cfg : Config) (force : Bool) (o : Outputs W D) (d : D) (denied : Option IoError)
      (b : Boxed W)
      → box_filters b ≡ wanted cfg
      → let old = (flush_installed devices o.runtime.writer).0 in
        Outcome cfg force o (
          replace devices cfg o old (
            d,
            try_spawn_with_state
                (box devices)
                devices.panics
                denied
                b
                writer_queue_cap
                cfg.writer_mode
                (state_of old),
          ))
  unfolding replace try_spawn_with_state
  spawn-Outcome cfg force o d (some e) b same = inr (inl (e, refl, refl, refl))
  spawn-Outcome cfg force o d none b same =
      let old = (flush_installed devices o.runtime.writer).0 in
      inr (
        inr (
          record {
            worker = record { inner = b; pending_error = none; reply = none; alive = true };
            queue = [];
            queue_cap = writer_queue_cap;
            mode = cfg.writer_mode;
            scope_metadata = (box devices).wants_scope_metadata b;
            has_sender = true;
            state = drop_installed devices old;
          },
          refl,
          refl,
          refl,
          same,
          refl,
          refl,
          refl,
          refl,
        ))

  replace-Outcome :
      (cfg : Config) (force : Bool) (o : Outputs W D) (d : D) (r : IoError ⊎ Boxed W)
      → ((b : Boxed W) → r ≡ inr b → box_filters b ≡ wanted cfg)
      → let old = (flush_installed devices o.runtime.writer).0 in
        Outcome cfg force o
          (replace devices cfg o old (spawned devices cfg.writer_mode (state_of old) (d, r)))
  unfolding replace spawned
  replace-Outcome cfg force o d (inl e) built = inr (inl (e, refl, refl, refl))
  replace-Outcome cfg force o d (inr b) built =
      spawn-Outcome cfg force o d (devices.thread_denied d) b (built b refl)

  -- A change of the configuration, if it is not forced and gives the configuration that was installed
  -- last, does nothing; or it fails, or it is installed. A failure is returned and noted in the
  -- diagnostics, and leaves the configuration, the level of the fast path, the journal and the installed
  -- writer, flushed, as they were; of the files that it opened meanwhile nothing is said. An
  -- installation has a new background writer in the mode that was asked for, with the filters of the
  -- enabled outputs at their levels, and the diagnostics so far; the level of the fast path is the
  -- effective one.
  pub update_writers-Outcome :
      (change : Config → Config) (header : Option RunHeader) (force : Bool) (o : Outputs W D)
      → Outcome (change o.runtime.config) force o (update_writers devices change header force o)
  unfolding update_writers
  update_writers-Outcome change header force o =
      let cfg = change o.runtime.config in
      if_split (Outcome cfg force o) (is_unchanged force o.runtime.last_cfg cfg)
        (λ same.
          let (free, last) = unchanged-last force o.runtime.last_cfg cfg same in
          inl (free, last, refl, refl))
        (λ _.
          let built = build_writers devices cfg header o.runtime.journal o.world in
          replace-Outcome cfg force o built.0 built.1
            (build_writers-filters devices cfg header o.runtime.journal o.world))

  -- Where a forced change succeeds, and the file, if it is enabled, has a path: the fast path lets an
  -- event through exactly when one of the installed filters does.
  pub update_writers-enabled_for_record :
      (change : Config → Config) (header : Option RunHeader) (o : Outputs W D) (id time_ns : ℕ)
      (scope : Option ℕ) (kind : EventKind) (name : String) (fields : Fields)
      → let cfg = change o.runtime.config in
        let (o', result) = update_writers devices change header true o in
        let r : Record = record {
          id = id;
          time_ns = time_ns;
          scope = scope;
          kind = event kind name fields;
        } in
        ((cfg.file_enabled ≡ false) ⊎ ((path : String) × (cfg.file_path ≡ some path)))
        → result ≡ none
        → (thresholds : List LogLevel) × (filters o'.runtime.writer ≡ some thresholds)
          × (any_enabled r thresholds ≡ enabled_for_record o'.log_level r)
  update_writers-enabled_for_record change header o id time_ns scope kind name fields paired done =
      elim (update_writers-Outcome change header true o) [
        | inl (free, _, _, _) ↦ cc free
        | inr (inl (e, fails, _, _)) ↦ absurd (none-ne-some (sym done ∙ fails))
        | inr (inr (a, _, runtime, level, same, _, _, _, _)) ↦
            let cfg = change o.runtime.config in
            let r : Record = record {
              id = id;
              time_ns = time_ns;
              scope = scope;
              kind = event kind name fields;
            } in
            (
              wanted cfg,
              ap (λ (rt : Runtime.Runtime (Installed W)). filters rt.writer) runtime ∙ ap some same,
              wanted-enabled cfg r paired
                  ∙ sym (enabled_for_record-effective_level cfg r)
                  ∙ ap (λ threshold. enabled_for_record threshold r) (sym level),
            )
      ]
