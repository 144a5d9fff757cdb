-- ===== src/Runtime/Filtered.antt =====
-- `FilteredWriter` and `NoopWriter` of src/runtime/mod.rs.
use eventline.Prelude.{false, none, if◌then◌else◌}
use eventline.Writer.{Writer, IoResult}
use eventline.Runtime.Levels.{LogLevel, record_enabled_at_level}

pub record FilteredWriter (W : Type 0) : Type 0 where
  pub inner : W
  pub min_level : LogLevel

-- The inner writer after a call, and the call's answer.
abbrev pub inside : {W : Type 0} → FilteredWriter W → W × IoResult → FilteredWriter W × IoResult
inside w (inner, r) = (record w { inner = inner }, r)

-- `impl Writer for FilteredWriter`.
unfoldable pub filtered_writer : {W : Type 0} → Writer W → Writer (FilteredWriter W)
filtered_writer sink = record {
  wants_scope_metadata = λ w. sink.wants_scope_metadata w.inner;
  set_run_id = λ id w. record w { inner = sink.set_run_id id w.inner };
  write_scope = λ s w. inside w (sink.write_scope s w.inner);
  write_record = λ r scope w.
      if record_enabled_at_level r w.min_level
      then inside w (sink.write_record r scope w.inner)
      else (w, none);
  flush = λ w. inside w (sink.flush w.inner);
}

pub data NoopWriter : Type 0 where
  noop : NoopWriter

-- `impl Writer for NoopWriter`, with the trait's defaults.
unfoldable pub noop_writer : Writer NoopWriter
noop_writer = record {
  wants_scope_metadata = λ w. false;
  set_run_id = λ id w. w;
  write_scope = λ s w. (w, none);
  write_record = λ r scope w. (w, none);
  flush = λ w. (w, none);
}
