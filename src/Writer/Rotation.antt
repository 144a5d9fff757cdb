-- ===== src/Writer/Rotation.antt =====
-- `LogPolicy` and `rotate` of src/journal/rotation.rs, over the files of one directory. Slot 0 is the
-- log at `path`, slot n is `rotated_name(path, n)`. A name leads to a file; an open handle keeps its file
-- when the name moves on.
pub mod Shifted
use eventline.Prelude.{
  ℕ, zero, suc, ◌+◌, ◌-◌, ◌≤◌, ◌<◌, ◌≡◌, refl, String, Bool, true, false, Option, none, some, List,
  [], ◌∷◌, ◌++◌, arith, ◌==◌, ltb, leb, if◌then◌else◌, or_else, Bool-cases, inl, inr, ap, ◌∙◌,
}
use eventline.Writer.{ErrorKind, IoError, IoResult}

pub record LogPolicy : Type 0 where
  pub max_bytes : ℕ
  pub keep_backups : ℕ

-- `LogPolicy::default()`.
abbrev pub default_policy : LogPolicy
default_policy = record { max_bytes = 5242880; keep_backups = 5 }

-- Names and the bytes of files; `next` is a file that has not been made yet.
pub record Directory : Type 0 where
  pub names : ℕ → Option ℕ
  pub contents : ℕ → List ℕ
  pub next : ℕ

-- What the system denies in the course of one call, with its message. A denied write has written some
-- bytes. A denial is never `NotFound`, which is what a missing name gives.
pub record Denials : Type 0 where
  pub create_dir : Option String
  pub metadata : Option String
  pub remove : Option String
  pub rename : ℕ → Option String
  pub open_file : Option String
  pub flush : Option String
  pub write_body : Option (ℕ × String)
  pub write_newline : Option (ℕ × String)

abbrev pub denial : String → IoError
denial message = record { kind = ErrorKind.other; message = message }

abbrev pub missing : IoError
missing = record { kind = ErrorKind.not_found; message = "" }

abbrev pub write_at {ℓ} : {A : Type ℓ} → (ℕ → A) → ℕ → A → ℕ → A
write_at f k v j = if k == j then v else f j

-- `fs::remove_file` on the log.
unfoldable pub remove_file : Denials → Directory → Directory × IoResult
remove_file deny d = elim deny.remove [
  | some message ↦ (d, some (denial message))
  | none ↦ elim (d.names 0) [
    | none ↦ (d, some missing)
    | some file ↦ (record d { names = write_at d.names 0 none }, none)
  ]
]

-- `fs::rename` from one slot to another. What the target named has lost its name.
unfoldable pub rename : Denials → ℕ → ℕ → Directory → Directory × IoResult
rename deny from to d = elim (deny.rename from) [
  | some message ↦ (d, some (denial message))
  | none ↦ elim (d.names from) [
    | none ↦ (d, some missing)
    | some file ↦ (record d { names = write_at (write_at d.names from none) to (some file) }, none)
  ]
]

-- `ignore_missing`.
unfoldable pub ignore_missing : IoResult → IoResult
ignore_missing none = none
ignore_missing (some e) = elim e.kind [ ErrorKind.not_found ↦ none | _ ↦ some e ]

-- A rename whose missing source does not matter.
unfoldable pub move : Denials → ℕ → Directory → Directory × IoResult
unfolding rename ignore_missing
move deny from d = let (d', r) = rename deny from (suc from) d in (d', ignore_missing r)

-- The loop over `(1..keep_backups).rev()`, from a backup down.
unfoldable pub shift_backups : Denials → ℕ → Directory → Directory × IoResult
unfolding move
shift_backups deny zero d = (d, none)
shift_backups deny (suc i) d =
    let (d', r) = move deny (suc i) d in
    let rest = shift_backups deny i d' in elim r [ some e ↦ (d', some e) | none ↦ rest ]

-- `rotate`.
unfoldable pub rotate : Denials → ℕ → Directory → Directory × IoResult
unfolding remove_file ignore_missing shift_backups move
rotate deny zero d = let (d', r) = remove_file deny d in (d', ignore_missing r)
rotate deny (suc k) d =
    let (d', r) = shift_backups deny k d in elim r [ some e ↦ (d', some e) | none ↦ move deny 0 d' ]
