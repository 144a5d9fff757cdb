-- ===== src/Writer/Rotating/Limits.antt =====
-- The size of the files that a `RotatingFileWriter` of src/journal/writer.rs writes.
use eventline.Prelude.{
  ℕ, zero, suc, ◌+◌, ◌≤◌, ◌<◌, ◌≡◌, refl, String, Bool, false, Option, none, some, List, [], ◌∷◌,
  ◌++◌, arith, length, length-append, usize_max, ◌⊎◌, inl, inr, Bool-cases, subst, sym, ap, ◌∙◌,
}
use mathlib.Core.Sum.{inr-injective, inl-ne-inr}
use eventline.Writer.{IoError, IoResult}
use eventline.Writer.Rotation.{
  Directory, LogPolicy, Denials, write_at, rotate, remove_file, ignore_missing,
}
use eventline.Writer.Rotation.Shifted.{rotate-moved, halts, halted}
use eventline.Writer.Rotating.{
  RotatingFileWriter, and_then, newline, open_file, write_all, refused, flush, reopen,
  rotate_and_reopen, must_rotate, append_line, write_line, starting_size, opened, with_style,
}

-- The counter is right, and no file of the directory is longer than the bound.
pub record Sized (bound : ℕ) (w : RotatingFileWriter) : Type 0 where
  pub counted : w.current_size ≡ length (w.directory.contents w.file)
  pub fits : (file : ℕ) → length (w.directory.contents file) ≤ bound

rotate-contents :
    (deny : Denials) (keep : ℕ) (d : Directory) → (rotate deny keep d).0.contents ≡ d.contents
rotate-contents deny zero d = unfold rotate in unfold remove_file in ground arith
rotate-contents deny (suc k) d = (rotate-moved deny k d).0

halted-halts : (deny : Denials) (k : ℕ) → halted deny (halts deny k) ≡ none → halts deny k ≡ 0
halted-halts deny zero h = ground arith
halted-halts deny (suc k) h = ground (arith, halted-halts deny k)

-- A rotation that succeeds leaves no log.
rotate-no_log :
    (deny : Denials) (keep : ℕ) (d : Directory)
    → (rotate deny keep d).1 ≡ none
    → (rotate deny keep d).0.names 0 ≡ none
rotate-no_log deny zero d h =
    unfold rotate in unfold remove_file in unfold ignore_missing in ground arith
rotate-no_log deny (suc k) d h =
    let m = rotate-moved deny k d in
    let s : halts deny k ≡ 0 = halted-halts deny k (sym m.1 ∙ h) in m.2 0 ∙ rw s (ground arith)

-- What a step of the writer keeps.
record Kept (bound : ℕ) (policy : LogPolicy) (after : RotatingFileWriter) : Type 0 where
  sized : Sized bound after
  same_policy : after.policy ≡ policy

-- `?` goes on where there is no error, and returns otherwise.
and_then_lem {ℓ} :
    (P : RotatingFileWriter × IoResult → Type ℓ) (w : RotatingFileWriter) (r : IoResult)
    (next : RotatingFileWriter → RotatingFileWriter × IoResult)
    → ((e : IoError) → r ≡ some e → P (w, some e))
    → (r ≡ none → P (next w))
    → P (and_then (w, r) next)
and_then_lem P w none next stop go = go refl
and_then_lem P w (some e) next stop go = stop e refl

-- What a rotation keeps, and what it ends with.
abbrev Reopened : ℕ → LogPolicy → RotatingFileWriter × IoResult → Type 0
Reopened bound policy after =
    Kept bound policy after.0 × (after.1 ≡ none → after.0.current_size ≡ 0)

open_file-missing :
    (d : Directory)
    → d.names 0 ≡ none
    → open_file d ≡ (
      record {
        names = write_at d.names 0 (some d.next);
        contents = write_at d.contents d.next [];
        next = suc d.next;
      },
      d.next,
    )
unfolding open_file
open_file-missing d h = ground arith

reopen-Reopened :
    (denied : Option String) (bound : ℕ) (w : RotatingFileWriter)
    → Sized bound w
    → w.directory.names 0 ≡ none
    → Reopened bound w.policy (reopen denied w)
unfolding reopen
reopen-Reopened (some message) bound w v h = (record { sized = v; same_policy = refl }, λ e. cc)
reopen-Reopened none bound w v h = rw (open_file-missing w.directory h) (
  record {
    sized = record { counted = ground arith; fits = λ file. ground (arith, v.fits file) };
    same_policy = refl;
  },
  λ e. refl,
)

-- Another directory with the same contents.
renamed :
    (bound : ℕ) (w : RotatingFileWriter) (d : Directory)
    → d.contents ≡ w.directory.contents
    → Sized bound w
    → Sized bound (record w { directory = d })
renamed bound w d e v = record {
  counted = v.counted ∙ ap (λ contents. length (contents w.file)) (sym e);
  fits = λ file. subst (λ contents. length (contents file) ≤ bound) (sym e) (v.fits file);
}

rotate_and_reopen-Reopened :
    (deny : Denials) (bound : ℕ) (w : RotatingFileWriter)
    → Sized bound w
    → Reopened bound w.policy (rotate_and_reopen deny w)
unfolding rotate_and_reopen flush
rotate_and_reopen-Reopened deny bound w v =
    and_then_lem (Reopened bound w.policy) w (refused deny.flush) _
      (λ e h. (record { sized = v; same_policy = refl }, λ no_error. cc))
      λ fine.
        let (d, r) = rotate deny w.policy.keep_backups w.directory in
        let v' = renamed bound w d (rotate-contents deny w.policy.keep_backups w.directory) v in
        and_then_lem (Reopened bound w.policy) (record w { directory = d }) r
          (reopen deny.open_file)
          (λ e h. (record { sized = v'; same_policy = refl }, λ no_error. cc))
          λ done.
            reopen-Reopened deny.open_file bound (record w { directory = d }) v'
              (rotate-no_log deny w.policy.keep_backups w.directory done)

must_rotate_lem :
    (write_len : ℕ) (w : RotatingFileWriter)
    → must_rotate write_len w ≡ false
    → 0 < w.policy.max_bytes
    → w.policy.max_bytes < usize_max
    → (w.current_size ≡ 0) ⊎ (w.current_size + write_len ≤ w.policy.max_bytes)
unfolding must_rotate
must_rotate_lem write_len w h p q = ground arith

append_line-Kept :
    (deny : Denials) (line : List ℕ) (bound : ℕ) (w : RotatingFileWriter)
    → deny.write_body ≡ none
    → deny.write_newline ≡ none
    → Sized bound w
    → w.current_size + length line + 1 ≤ bound
    → bound ≤ usize_max
    → Kept bound w.policy (append_line deny line w).0
unfolding append_line write_all
append_line-Kept deny line bound w body end v room small =
    let old = w.directory.contents w.file in
    rw (body, end)
      (record {
        sized = record {
          counted = ground (arith, length-append old line, length-append (old ++ line) newline);
          fits = λ file.
              ground
                (arith, v.fits file, length-append old line, length-append (old ++ line) newline);
        };
        same_policy = refl;
      })

-- No write is denied in a call.
abbrev pub WritesWhole : Denials → Type 0
WritesWhole deny = (deny.write_body ≡ none) × (deny.write_newline ≡ none)

write_line-Kept :
    (deny : Denials) (line : List ℕ) (bound : ℕ) (w : RotatingFileWriter)
    → WritesWhole deny
    → Sized bound w
    → 0 < w.policy.max_bytes
    → w.policy.max_bytes ≤ bound
    → length line + 1 ≤ bound
    → bound < usize_max
    → Kept bound w.policy (write_line deny line w).0
unfolding write_line
write_line-Kept deny line bound w whole v limited enough room small =
    elim (Bool-cases (must_rotate (length line + 1) w)) [
      | inl full ↦ rw full (
          let (w', r) = rotate_and_reopen deny w in
          let again = rotate_and_reopen-Reopened deny bound w v in
          and_then_lem (λ o. Kept bound w.policy o.0) w' r (append_line deny line) (λ e h. again.0)
            λ done.
              subst (λ policy. Kept bound policy (append_line deny line w').0) again.0.same_policy
                (append_line-Kept deny line bound w' whole.0 whole.1 again.0.sized
                  (omega (arith, again.1 done)) (omega arith)))
      | inr fits ↦ rw fits (
          append_line-Kept deny line bound w whole.0 whole.1 v
            (ground (arith, must_rotate_lem (length line + 1) w)) (omega arith))
    ]

-- Lines that are written in turn, each with what is denied in its call. Errors are passed over, as the
-- runtime does.
unfoldable pub write_lines : List (Denials × List ℕ) → RotatingFileWriter → RotatingFileWriter
write_lines [] w = w
write_lines ((deny, line) ∷ calls) w = write_lines calls (write_line deny line w).0

-- Writes are whole, and a line with its newline is not longer than the bound.
abbrev pub AllShort : ℕ → List (Denials × List ℕ) → Type 0
AllShort bound [] = Unit
AllShort bound ((deny, line) ∷ calls) =
    WritesWhole deny × (length line + 1 ≤ bound) × AllShort bound calls

write_lines-Sized :
    (bound : ℕ) (calls : List (Denials × List ℕ)) (w : RotatingFileWriter)
    → AllShort bound calls
    → Sized bound w
    → 0 < w.policy.max_bytes
    → w.policy.max_bytes ≤ bound
    → bound < usize_max
    → Sized bound (write_lines calls w)
unfolding write_lines
write_lines-Sized bound [] w short v limited enough small = v
write_lines-Sized bound ((deny, line) ∷ calls) w (whole, room, short) v limited enough small =
    let k = write_line-Kept deny line bound w whole v limited enough room small in
    write_lines-Sized bound calls (write_line deny line w).0 short k.sized
      (subst (λ policy. 0 < policy.max_bytes) (sym k.same_policy) limited)
      (subst (λ policy. policy.max_bytes ≤ bound) (sym k.same_policy) enough) small

-- The file that the path names has the length that was found, or there is none.
StartsAt : Directory → ℕ → Type 0
StartsAt d size = (size ≡ elim (d.names 0) [ none ↦ 0 | some file ↦ length (d.contents file) ])

starting_size-StartsAt :
    (deny : Denials) (is_dir : Bool) (policy : LogPolicy) (d : Directory) (size : ℕ)
    → (starting_size deny is_dir policy d).1 ≡ inr size
    → let d' = (starting_size deny is_dir policy d).0 in
      StartsAt d' size × (d'.contents ≡ d.contents)
unfolding starting_size StartsAt
starting_size-StartsAt deny is_dir policy d size h =
    ground
      (arith, rotate-contents deny policy.keep_backups d, rotate-no_log deny policy.keep_backups d)

opened-Sized :
    (denied : Option String) (policy : LogPolicy) (run_id : String) (bound size : ℕ) (d : Directory)
    (w : RotatingFileWriter)
    → StartsAt d size
    → ((file : ℕ) → length (d.contents file) ≤ bound)
    → (opened denied policy run_id (d, inr size)).1 ≡ inr w
    → Sized bound w × (w.policy ≡ policy)
unfolding opened open_file StartsAt
opened-Sized (some message) policy run_id bound size d w start fits h = absurd (inl-ne-inr h)
opened-Sized none policy run_id bound size d w start fits h =
    subst (λ w. Sized bound w × (w.policy ≡ policy)) (inr-injective _ _ h)
      (record { counted = ground arith; fits = λ file. ground (arith, fits file) }, refl)

opened-inl :
    (denied : Option String) (policy : LogPolicy) (run_id : String) (d : Directory) (e : IoError)
    → (opened denied policy run_id (d, inl e)).1 ≡ inl e
unfolding opened
opened-inl denied policy run_id d e = refl

with_style_lem :
    (deny : Denials) (is_dir : Bool) (policy : LogPolicy) (run_id : String) (d : Directory)
    (w : RotatingFileWriter) (bound : ℕ)
    → (with_style deny is_dir policy run_id d).1 ≡ inr w
    → ((file : ℕ) → length (d.contents file) ≤ bound)
    → Sized bound w × (w.policy ≡ policy)
unfolding with_style
with_style_lem deny is_dir policy run_id d w bound h fits =
    by_parts (starting_size deny is_dir policy d).0 (starting_size deny is_dir policy d).1
      (starting_size-StartsAt deny is_dir policy d) h
  where
    by_parts :
        (d' : Directory) (r : IoError ⊎ ℕ)
        → ((size : ℕ) → r ≡ inr size → StartsAt d' size × (d'.contents ≡ d.contents))
        → (opened deny.open_file policy run_id (d', r)).1 ≡ inr w
        → Sized bound w × (w.policy ≡ policy)
    by_parts d' (inl e) start h =
        absurd (inl-ne-inr (sym (opened-inl deny.open_file policy run_id d' e) ∙ h))
    by_parts d' (inr size) start h =
        let (at, same) = start size refl in
        opened-Sized deny.open_file policy run_id bound size d' w at
          (λ file. subst (λ contents. length (contents file) ≤ bound) (sym same) (fits file)) h

-- A writer that is opened over a directory whose files keep to the bound, with a limit that is on and
-- with a bound that neither the limit nor any line with its newline passes, and then given lines by
-- `write_line` and no header, which bypasses the limit on purpose, keeps every file of the directory within
-- the bound, whatever rotation, flush or opening is denied later, as long as every write is whole; and its
-- counter is the length of the file that it writes to.
pub with_style-Sized :
    (deny : Denials) (is_dir : Bool) (policy : LogPolicy) (run_id : String) (d : Directory)
    (w : RotatingFileWriter) (bound : ℕ) (calls : List (Denials × List ℕ))
    → (with_style deny is_dir policy run_id d).1 ≡ inr w
    → ((file : ℕ) → length (d.contents file) ≤ bound)
    → 0 < policy.max_bytes
    → policy.max_bytes ≤ bound
    → bound < usize_max
    → AllShort bound calls
    → Sized bound (write_lines calls w)
with_style-Sized deny is_dir policy run_id d w bound calls h fits limited enough small short =
    let (sized, same) = with_style_lem deny is_dir policy run_id d w bound h fits in
    write_lines-Sized bound calls w short sized
      (subst (λ policy. 0 < policy.max_bytes) (sym same) limited)
      (subst (λ policy. policy.max_bytes ≤ bound) (sym same) enough) small
