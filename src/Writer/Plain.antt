-- ===== src/Writer/Plain.antt =====
-- `FileWriter` and `StdoutWriter` of src/journal/writer.rs, as the bytes that they have written. What the system
-- denies in a call is an argument of the call; the text of an entry is a parameter.
use eventline.Prelude.{
  ℕ, ◌⊎◌, inl, inr, String, false, Option, none, some, List, [], ◌∷◌, ◌++◌, take, if◌then◌else◌,
}
use eventline.Core.{Record, Scope}
use eventline.Writer.{IoError, IoResult, Writer}
use eventline.Writer.Rotation.{Denials, denial}
use eventline.Writer.Rotating.{Lines, newline, refused}

pub record FileWriter : Type 0 where
  pub contents : List ℕ
  pub run_id : String

-- `FileWriter::with_style`, on a file with these contents: it appends to them.
unfoldable pub with_style : Option String → String → List ℕ → IoError ⊎ FileWriter
with_style (some message) run_id contents = inl (denial message)
with_style none run_id contents = inr (record { contents = contents; run_id = run_id })

-- The bytes, or the first of them where the call is denied.
abbrev pub put : Option (ℕ × String) → List ℕ → List ℕ → List ℕ × IoResult
put none bytes contents = (contents ++ bytes, none)
put (some (n, message)) bytes contents = (contents ++ take n bytes, some (denial message))

-- `writeln!`: the line, and its end if the line could be written.
unfoldable pub write_line : Denials → List ℕ → List ℕ → List ℕ × IoResult
write_line deny line contents =
    let (contents', r) = put deny.write_body line contents in
    let ended = put deny.write_newline newline contents' in
    elim r [ some e ↦ (contents', some e) | none ↦ ended ]

unfoldable pub with_contents : FileWriter → List ℕ × IoResult → FileWriter × IoResult
with_contents w (contents, r) = (record w { contents = contents }, r)

-- `impl Writer for FileWriter`.
unfoldable pub file_writer : Lines → Denials → Writer FileWriter
unfolding write_line with_contents
file_writer lines deny = record {
  wants_scope_metadata = λ w. lines.is_jsonl;
  set_run_id = λ id w. record w { run_id = id };
  write_scope = λ s w.
      if lines.is_jsonl
      then with_contents w (write_line deny (lines.scope_line s w.run_id) w.contents)
      else (w, none);
  write_record = λ r scope w.
      with_contents w (write_line deny (lines.record_line r scope w.run_id) w.contents);
  flush = λ w. (w, refused deny.flush);
}

-- A line that is not empty.
print_line : Denials → List ℕ → List ℕ → List ℕ × IoResult
unfolding write_line
print_line deny [] printed = (printed, none)
print_line deny (b ∷ line) printed = write_line deny (b ∷ line) printed

-- `impl Writer for StdoutWriter`, with the default answers of the trait for scopes.
unfoldable pub stdout_writer : (Record → Option Scope → List ℕ) → Denials → Writer (List ℕ)
unfolding print_line
stdout_writer console_line deny = record {
  wants_scope_metadata = λ printed. false;
  set_run_id = λ id printed. printed;
  write_scope = λ s printed. (printed, none);
  write_record = λ r scope printed. print_line deny (console_line r scope) printed;
  flush = λ printed. (printed, refused deny.flush);
}
