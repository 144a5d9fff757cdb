-- ===== src/Writer/Diagnostics.antt =====
-- `WriterState` and `WriterDiagnostics` of src/journal/diagnostics.rs. The text of the last error is kept as
-- its operation and the error.
use eventline.Prelude.{ℕ, ◌+◌, ◌%◌, ◌^◌, String, Option, none, some}
use eventline.Writer.{IoError}

-- The three cells of `WriterState`, whose snapshot `WriterDiagnostics` has the same three fields.
pub record WriterState : Type 0 where
  pub dropped : ℕ
  pub failed : ℕ
  pub last_error : Option (String × IoError)

abbrev pub no_diagnostics : WriterState
no_diagnostics = record { dropped = 0; failed = 0; last_error = none }

-- `WriterState::record_error`.
unfoldable pub record_error : String → IoError → WriterState → WriterState
record_error operation error state = record state {
  failed = (state.failed + 1) % 2 ^ 64;
  last_error = some (operation, error);
}

-- `WriterState::drop_record`.
unfoldable pub drop_record : WriterState → WriterState
drop_record state = record state { dropped = (state.dropped + 1) % 2 ^ 64 }

-- `WriterState::dropped_count`.
unfoldable pub dropped_count : WriterState → ℕ
dropped_count state = state.dropped

-- `WriterState::clear`.
unfoldable pub clear : WriterState → WriterState
clear state = no_diagnostics
