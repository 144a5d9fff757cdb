-- ===== src/Writer/Rotating/Reopening.antt =====
-- What a `RotatingFileWriter` of src/journal/writer.rs does after the log could not be opened again.
use eventline.Prelude.{
  ℕ, zero, suc, ◌+◌, ◌≡◌, refl, ap, ◌∙◌, String, true, false, none, some, List, ◌++◌, arith, length,
}
use eventline.Writer.Rotation.{Denials, denial, rotate}
use eventline.Writer.Rotation.Shifted.{rotate-moved, halts}
use eventline.Writer.Rotating.{
  RotatingFileWriter, newline, write_all, flush, reopen, rotate_and_reopen, must_rotate,
  append_line, write_line,
}
use eventline.Writer.Rotating.Limits.{WritesWhole}

halts-zero : (deny : Denials) (k : ℕ) → ((i : ℕ) → deny.rename i ≡ none) → halts deny k ≡ 0
halts-zero deny zero h = ground (arith, h 0)
halts-zero deny (suc k) h = ground (arith, h (suc k), halts-zero deny k h)

-- The writer behind a rotation whose reopening is denied.
abbrev rotated : Denials → RotatingFileWriter → RotatingFileWriter
rotated deny w = record w { directory = (rotate deny w.policy.keep_backups w.directory).0 }

denied_open :
    (deny : Denials) (message : String) (w : RotatingFileWriter)
    → deny.open_file ≡ some message
    → deny.flush ≡ none
    → (rotate deny w.policy.keep_backups w.directory).1 ≡ none
    → rotate_and_reopen deny w ≡ (rotated deny w, some (denial message))
unfolding rotate_and_reopen flush reopen
denied_open deny message w no_open flushed done = ground arith

first_write :
    (deny : Denials) (message : String) (line : List ℕ) (w : RotatingFileWriter)
    → must_rotate (length line + 1) w ≡ true
    → rotate_and_reopen deny w ≡ (rotated deny w, some (denial message))
    → write_line deny line w ≡ (rotated deny w, some (denial message))
unfolding write_line
first_write deny message line w full e = rw full (rw e refl)

second_write :
    (deny : Denials) (line : List ℕ) (w : RotatingFileWriter)
    → must_rotate (length line + 1) w ≡ false
    → WritesWhole deny
    → ((write_line deny line w).1 ≡ none)
      × ((write_line deny line w).0.directory.names ≡ w.directory.names)
      × ((write_line deny line w).0.directory.contents w.file
          ≡ (w.directory.contents w.file ++ line) ++ newline)
unfolding write_line append_line write_all
second_write deny line w fits (body, end) = rw fits (ground arith)

must_rotate-rotated :
    (deny : Denials) (n : ℕ) (w : RotatingFileWriter)
    → must_rotate n (rotated deny w) ≡ must_rotate n w
unfolding must_rotate
must_rotate-rotated deny n w = refl

moved_log :
    (deny : Denials) (k file : ℕ) (w : RotatingFileWriter)
    → ((i : ℕ) → deny.rename i ≡ none)
    → w.policy.keep_backups ≡ suc k
    → w.directory.names 0 ≡ some file
    → let (d', r) = rotate deny w.policy.keep_backups w.directory in
      (r ≡ none)
      × (d'.names 0 ≡ none)
      × (d'.names 1 ≡ some file)
      × (d'.contents ≡ w.directory.contents)
moved_log deny k file w free keep named =
    let (same, r, names) = rotate-moved deny k w.directory in
    let h = halts-zero deny k free in
    rw keep (r ∙ rw h refl, names 0 ∙ rw h (ground arith), names 1 ∙ rw h (ground arith), same)

-- Where a full log was moved to its backup and only its opening was then denied, the error is
-- returned, and nothing is at the path. A later line that still fits is then appended, without an
-- error, to the file that is the newest backup now.
pub write_line-denied_open :
    (deny deny' : Denials) (message : String) (line line' : List ℕ) (k : ℕ) (w : RotatingFileWriter)
    → deny.open_file ≡ some message
    → deny.flush ≡ none
    → ((i : ℕ) → deny.rename i ≡ none)
    → WritesWhole deny'
    → w.policy.keep_backups ≡ suc k
    → w.directory.names 0 ≡ some w.file
    → must_rotate (length line + 1) w ≡ true
    → must_rotate (length line' + 1) w ≡ false
    → let first = write_line deny line w in
      let second = write_line deny' line' first.0 in
      (first.1 ≡ some (denial message))
      × (second.1 ≡ none)
      × (second.0.directory.names 0 ≡ none)
      × (second.0.directory.names 1 ≡ some w.file)
      × (second.0.directory.contents w.file ≡ (w.directory.contents w.file ++ line') ++ newline)
write_line-denied_open deny deny' message line line' k w no_open flushed free whole keep named full
      fits =
    let (done, gone, backup, same) = moved_log deny k w.file w free keep named in
    let first =
      first_write deny message line w full (denied_open deny message w no_open flushed done) in
    let (fine, names, bytes) =
      second_write deny' line' (rotated deny w)
        (must_rotate-rotated deny (length line' + 1) w ∙ fits) whole in
    rw first (
      refl,
      fine,
      ap (λ names. names 0) names ∙ gone,
      ap (λ names. names 1) names ∙ backup,
      bytes ∙ ap (λ contents. (contents w.file ++ line') ++ newline) same,
    )
