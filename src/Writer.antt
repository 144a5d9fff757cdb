-- ===== src/Writer.antt =====
-- The `Writer` trait of src/journal/writer.rs: an output sink with a state. Its operations are a
-- parameter of the code that writes through it. An error is returned as a value.
pub mod Multi
pub mod Rotation
pub mod Rotating
pub mod Plain
pub mod Diagnostics
pub mod Background
use eventline.Prelude.{String, Bool, Option}
use eventline.Core.{Record, Scope}

pub data ErrorKind : Type 0 where
  not_found broken_pipe is_a_directory other : ErrorKind

pub record IoError : Type 0 where
  pub kind : ErrorKind
  pub message : String

-- `io::Result<()>`: nothing, or the error.
abbrev pub IoResult : Type 0
IoResult = Option IoError

pub record Writer (W : Type 0) : Type 0 where
  pub wants_scope_metadata : W → Bool
  pub set_run_id : String → W → W
  pub write_scope : Scope → W → W × IoResult
  pub write_record : Record → Option Scope → W → W × IoResult
  pub flush : W → W × IoResult
