-- ===== src/Writer/Rotating.antt =====
-- `RotatingFileWriter` of src/journal/writer.rs, with the directory that it works in. What the system
-- denies in a call is an argument of the call. Sizes are `u64` values, whose sums wrap at 2 ^ 64 (a debug
-- build panics there). The text of an entry is a parameter, `Lines`.
pub mod Limits
pub mod Reopening
pub mod Unrotated
use eventline.Prelude.{
  ℕ, zero, suc, ◌+◌, ◌%◌, ◌^◌, ◌≤◌, ◌<◌, ◌≡◌, refl, String, Bool, true, false, Option, none, some,
  List, [], ◌∷◌, ◌++◌, ◌&&◌, take, min, arith, ltb, leb, or_else, if◌then◌else◌, length, usize_max,
  ◌⊎◌, inl, inr,
}
use eventline.Core.{Record, Scope}
use eventline.Writer.{ErrorKind, IoError, IoResult, Writer}
use eventline.Writer.Rotation.{Directory, LogPolicy, Denials, denial, write_at, rotate}

pub record RotatingFileWriter : Type 0 where
  pub file : ℕ
  pub policy : LogPolicy
  pub current_size : ℕ
  pub run_id : String
  pub directory : Directory

abbrev pub Outcome : Type 0
Outcome = RotatingFileWriter × IoResult

-- `?` on `io::Result<()>`: the state after an error is the state of the call.
abbrev pub and_then : Outcome → (RotatingFileWriter → Outcome) → Outcome
and_then (w, some e) next = (w, some e)
and_then (w, none) next = next w

abbrev pub newline : List ℕ
newline = 10 ∷ []

-- `OpenOptions::new().create(true).append(true).open(&path)`: a missing file is made, empty.
unfoldable pub open_file : Directory → Directory × ℕ
open_file d = elim (d.names 0) [
  | some file ↦ (d, file)
  | none ↦ (
    record {
      names = write_at d.names 0 (some d.next);
      contents = write_at d.contents d.next [];
      next = suc d.next;
    },
    d.next,
  )
]

-- `write_all` at the end of the open file. A denied call has written the first bytes.
unfoldable pub write_all : Option (ℕ × String) → List ℕ → RotatingFileWriter → Outcome
write_all denied bytes w =
    let put = λ (bytes : List ℕ). record w {
      directory = record (w.directory) {
        contents = write_at w.directory.contents w.file (w.directory.contents w.file ++ bytes);
      };
    } in
    elim denied [
      | none ↦ (put bytes, none)
      | some (n, message) ↦ (put (take n bytes), some (denial message))
    ]

abbrev pub refused : Option String → IoResult
refused none = none
refused (some message) = some (denial message)

-- `RotatingFileWriter::flush`: a `File` holds nothing back.
unfoldable pub flush : Denials → RotatingFileWriter → Outcome
flush deny w = (w, refused deny.flush)

-- The bytes go to the open file, and the size goes up by as much.
abbrev pub grown : ℕ → RotatingFileWriter → RotatingFileWriter
grown n w = record w { current_size = (w.current_size + n) % 2 ^ 64 }

-- `write_header`.
unfoldable pub write_header : Denials → List ℕ → RotatingFileWriter → Outcome
unfolding write_all flush
write_header deny header w =
    and_then
      (if ltb 0 w.current_size
        then and_then (write_all deny.write_newline newline w) (λ w. (grown 1 w, none))
        else (w, none))
      λ w. and_then (write_all deny.write_body header w) λ w.
        and_then (write_all deny.write_newline newline w) λ w.
          flush deny
            (record w { current_size = min usize_max (w.current_size + (length header + 1)) })

reopen : Option String → RotatingFileWriter → Outcome
reopen (some message) w = (w, some (denial message))
reopen none w =
    let (d, file) = open_file w.directory in
    (record w { directory = d; file = file; current_size = 0 }, none)

-- `rotate_and_reopen`.
unfoldable pub rotate_and_reopen : Denials → RotatingFileWriter → Outcome
unfolding flush reopen
rotate_and_reopen deny w = and_then (flush deny w) λ w.
    let (d, r) = rotate deny w.policy.keep_backups w.directory in
    and_then (record w { directory = d }, r) (reopen deny.open_file)

-- The guard of `write_line`: the line would make a file that is not empty too long.
unfoldable pub must_rotate : ℕ → RotatingFileWriter → Bool
must_rotate write_len w =
    ltb 0 w.policy.max_bytes
    && (ltb 0 w.current_size && ltb w.policy.max_bytes (min usize_max (w.current_size + write_len)))

append_line : Denials → List ℕ → RotatingFileWriter → Outcome
append_line deny line w =
    and_then (write_all deny.write_body line w)
      λ w. and_then (write_all deny.write_newline newline w) λ w. (grown (length line + 1) w, none)

-- `write_line`.
unfoldable pub write_line : Denials → List ℕ → RotatingFileWriter → Outcome
unfolding rotate_and_reopen append_line write_all must_rotate
write_line deny line w =
    and_then (if must_rotate (length line + 1) w then rotate_and_reopen deny w else (w, none))
      (append_line deny line)

-- The size of the log as it is found.
found_size : Denials → LogPolicy → Directory → Directory × (IoError ⊎ ℕ)
found_size deny policy d = elim (d.names 0) [
  | none ↦ (d, inr 0)
  | some file ↦
      let len = length (d.contents file) in
      if ltb 0 policy.max_bytes && leb policy.max_bytes len
      then (let (d', r) = rotate deny policy.keep_backups d in
          elim r [ some e ↦ (d', inl e) | none ↦ (d', inr 0) ])
      else (d, inr len)
]

-- The size that `with_style` starts with, where the path is looked up; a full file is rotated away.
starting_size : Denials → Bool → LogPolicy → Directory → Directory × (IoError ⊎ ℕ)
unfolding found_size
starting_size deny is_dir policy d = elim (or_else deny.create_dir deny.metadata) [
  | some message ↦ (d, inl (denial message))
  | none ↦
      if is_dir
      then (
        d,
        inl (record { kind = ErrorKind.is_a_directory; message = "log path is a directory" }),
      )
      else found_size deny policy d
]

opened :
    Option String
    → LogPolicy
    → String
    → Directory × (IoError ⊎ ℕ)
    → Directory × (IoError ⊎ RotatingFileWriter)
opened denied policy run_id (d, inl e) = (d, inl e)
opened (some message) policy run_id (d, inr size) = (d, inl (denial message))
opened none policy run_id (d, inr size) =
    let (d', file) = open_file d in
    (
      d',
      inr (record {
        file = file;
        policy = policy;
        current_size = size;
        run_id = run_id;
        directory = d';
      }),
    )

-- `RotatingFileWriter::with_style`, where the path may be a directory: the writer, or the error.
unfoldable pub with_style :
    Denials → Bool → LogPolicy → String → Directory → Directory × (IoError ⊎ RotatingFileWriter)
unfolding starting_size opened open_file
with_style deny is_dir policy run_id d =
    opened deny.open_file policy run_id (starting_size deny is_dir policy d)

-- The text of entries: a line of JSON for a scope, where the format is JSONL, and a line for a record.
pub record Lines : Type 0 where
  pub is_jsonl : Bool
  pub scope_line : Scope → String → List ℕ
  pub record_line : Record → Option Scope → String → List ℕ

-- `impl Writer for RotatingFileWriter`.
unfoldable pub rotating_writer : Lines → Denials → Writer RotatingFileWriter
unfolding write_line flush
rotating_writer lines deny = record {
  wants_scope_metadata = λ w. lines.is_jsonl;
  set_run_id = λ id w. record w { run_id = id };
  write_scope =
      λ s w. if lines.is_jsonl then write_line deny (lines.scope_line s w.run_id) w else (w, none);
  write_record = λ r scope w. write_line deny (lines.record_line r scope w.run_id) w;
  flush = flush deny;
}
