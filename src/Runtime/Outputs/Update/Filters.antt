-- ===== src/Runtime/Outputs/Update/Filters.antt =====
-- The filters that `build_writers` installs (src/runtime/mod.rs).
use eventline.Prelude.{
  ◌≡◌, ◌⊎◌, refl, sym, ap, ◌∙◌, inl, inr, String, Bool, true, false, Option, none, some, List, [],
  ◌∷◌, ◌++◌, ◌&&◌, if◌then◌else◌, map, arith,
}
use mathlib.Core.Sum.{inr-injective, inl-ne-inr}
use eventline.Core.{Scope}
use eventline.Writer.{IoError, IoResult}
use eventline.Writer.Multi.{multi_writer, each, each_from_lem}
use eventline.Journal.{Journal}
use eventline.Journal.Calls
use eventline.Runtime.Levels.{LogLevel, Config}
use eventline.Runtime.Filtered.{FilteredWriter, filtered_writer, NoopWriter}
use eventline.Runtime.Header.{RunHeader}
use eventline.Runtime.Outputs.{
  Boxed, no_output, multi, Installed, initial, background, Devices, is_jsonl,
}
use eventline.Runtime.Outputs.Update.{
  mw, console_writers, filtered, file_writers, write_scopes, boxed, box_up, box_up_built,
  build_writers,
}

-- The thresholds of installed filters, if a background writer is installed.
abbrev levels : {W : Type 0} → List (FilteredWriter W) → List LogLevel
levels [] = []
levels (w ∷ ws) = w.min_level ∷ levels ws

abbrev pub box_filters : {W : Type 0} → Boxed W → List LogLevel
box_filters no_output = []
box_filters (multi ws) = levels ws

abbrev pub filters : {W : Type 0} → Installed W → Option (List LogLevel)
filters (initial state) = none
filters (background a) = some (box_filters a.worker.inner)

-- The thresholds that a configuration asks for: the console's, then the file's.
abbrev pub wanted_file : Config → Option String → List LogLevel
wanted_file cfg none = []
wanted_file cfg (some path) = if cfg.file_enabled then cfg.file_level ∷ [] else []

abbrev pub wanted : Config → List LogLevel
wanted cfg =
    (if cfg.console_enabled then cfg.console_level ∷ [] else []) ++ wanted_file cfg cfg.file_path

module _ {W D : Type 0} (devices : Devices W D) where
  levels-map :
      (f : FilteredWriter W → FilteredWriter W) (ws : List (FilteredWriter W))
      → ((w : FilteredWriter W) → (f w).min_level ≡ w.min_level)
      → levels (map f ws) ≡ levels ws
  levels-map f [] h = refl
  levels-map f (w ∷ ws) h = ground (arith, h w, levels-map f ws h)

  levels-append : (xs ys : List (FilteredWriter W)) → levels (xs ++ ys) ≡ levels xs ++ levels ys
  levels-append [] ys = refl
  levels-append (x ∷ xs) ys = ap (◌∷◌ x.min_level) (levels-append xs ys)

  named-levels :
      (id : String) (ws : List (FilteredWriter W))
      → levels ((mw devices).set_run_id id ws) ≡ levels ws
  unfolding multi_writer filtered_writer
  named-levels id ws = levels-map ((filtered_writer devices.sink).set_run_id id) ws (λ w. refl)

  write_scope-levels :
      (s : Scope) (ws : List (FilteredWriter W))
      → levels ((mw devices).write_scope s ws).0 ≡ levels ws
  unfolding multi_writer each filtered_writer
  write_scope-levels s ws =
      let f = (filtered_writer devices.sink).write_scope s in
      ap (λ (r : List (FilteredWriter W) × IoResult). levels r.0) (each_from_lem f none ws)
      ∙ levels-map (λ w. (f w).0) ws (λ w. refl)

  write_scopes-levels :
      (scopes : List Scope) (ws ws' : List (FilteredWriter W))
      → write_scopes devices scopes ws ≡ inr ws'
      → levels ws' ≡ levels ws
  unfolding write_scopes
  write_scopes-levels [] ws ws' h = ap levels (sym (inr-injective _ _ h))
  write_scopes-levels (s ∷ scopes) ws ws' h = ground (
    arith,
    write_scopes-levels scopes ((mw devices).write_scope s ws).0 ws',
    write_scope-levels s ws,
  )

  kept :
      (b : Bool) (r : IoError ⊎ List (FilteredWriter W)) (named ws : List (FilteredWriter W))
      → (r ≡ inr ws → levels ws ≡ levels named)
      → (if b then r else inr named) ≡ inr ws
      → levels ws ≡ levels named
  kept true r named ws h e = h e
  kept false r named ws h e = ap levels (sym (inr-injective _ _ e))

  boxed-inr :
      (r : IoError ⊎ List (FilteredWriter W)) (b : Boxed W)
      → boxed devices r ≡ inr b
      → (ws : List (FilteredWriter W)) × (r ≡ inr ws) × (multi ws ≡ b)
  unfolding boxed
  boxed-inr (inl e) b h = absurd (inl-ne-inr h)
  boxed-inr (inr ws) b h = (ws, refl, inr-injective _ _ h)

  box_up-filters :
      (cfg : Config) (j : Journal NoopWriter) (ws : List (FilteredWriter W)) (b : Boxed W)
      → box_up devices cfg j ws ≡ inr b
      → box_filters b ≡ levels ws
  unfolding box_up
  box_up-filters cfg j [] b h = ap box_filters (sym (inr-injective _ _ h))
  box_up-filters cfg j (w ∷ ws) b h =
      let named = (mw devices).set_run_id j.run_id (w ∷ ws) in
      let scopes = Calls.scopes j in
      let (ws', same, out) =
        boxed-inr
          (if cfg.file_enabled && is_jsonl cfg.file_format
            then write_scopes devices scopes named
            else inr named)
          b h in
      ap box_filters (sym out)
      ∙ kept (cfg.file_enabled && is_jsonl cfg.file_format) (write_scopes devices scopes named)
          named ws' (write_scopes-levels scopes named ws') same
      ∙ named-levels j.run_id (w ∷ ws)

  file_writers-levels :
      (cfg : Config) (header : Option RunHeader) (path : Option String) (d : D)
      (ws : List (FilteredWriter W))
      → (file_writers devices cfg header path d).1 ≡ inr ws
      → levels ws ≡ wanted_file cfg path
  unfolding file_writers filtered
  file_writers-levels cfg header none d ws h = ap levels (sym (inr-injective _ _ h))
  file_writers-levels cfg header (some path) d ws h = ground arith

  box_up_built-inl :
      (cfg : Config) (j : Journal NoopWriter) (d : D) (e : IoError) {b : Boxed W}
      → (box_up_built devices cfg j (d, inl e)).1 ≡ inr b
      → inl e ≡ inr b
  unfolding box_up_built
  box_up_built-inl cfg j d e h = h

  box_up_built-inr :
      (cfg : Config) (j : Journal NoopWriter) (d : D) (ws : List (FilteredWriter W)) (b : Boxed W)
      → (box_up_built devices cfg j (d, inr ws)).1 ≡ inr b
      → box_up devices cfg j (console_writers devices cfg ++ ws) ≡ inr b
  unfolding box_up_built
  box_up_built-inr cfg j d ws b h = h

  console_levels :
      (cfg : Config)
      → levels (console_writers devices cfg)
        ≡ (if cfg.console_enabled then cfg.console_level ∷ [] else [])
  console_levels cfg = ground arith

  pub build_writers-filters :
      (cfg : Config) (header : Option RunHeader) (j : Journal NoopWriter) (d : D) (b : Boxed W)
      → (build_writers devices cfg header j d).1 ≡ inr b
      → box_filters b ≡ wanted cfg
  unfolding build_writers
  build_writers-filters cfg header j d b h =
      by_file (file_writers devices cfg header cfg.file_path d).0
        (file_writers devices cfg header cfg.file_path d).1
        (file_writers-levels cfg header cfg.file_path d) h
    where
      by_file :
          (d' : D) (r : IoError ⊎ List (FilteredWriter W))
          → ((ws : List (FilteredWriter W))
              → r ≡ inr ws
              → levels ws ≡ wanted_file cfg cfg.file_path)
          → (box_up_built devices cfg j (d', r)).1 ≡ inr b
          → box_filters b ≡ wanted cfg
      by_file d' (inl e) files h = absurd (inl-ne-inr (box_up_built-inl cfg j d' e h))
      by_file d' (inr ws) files h =
          box_up-filters cfg j (console_writers devices cfg ++ ws) b
            (box_up_built-inr cfg j d' ws b h)
          ∙ levels-append (console_writers devices cfg) ws
          ∙ ap (◌++◌ (levels (console_writers devices cfg))) (files ws refl)
          ∙ ap (λ l. l ++ wanted_file cfg cfg.file_path) (console_levels cfg)
