-- ===== src/Writer/Rotating/Unrotated.antt =====
-- A rotating writer without a limit is a plain one (src/journal/writer.rs).
use eventline.Prelude.{
  ℕ, ◌+◌, ◌≡◌, refl, ap, ◌∙◌, String, false, Option, none, some, List, [], ◌∷◌, ◌++◌, take, arith,
  length, Option-cases, subst, if_both, inl, inr,
}
use eventline.Core.{Record, Scope}
use eventline.Writer.{IoResult, Writer}
use eventline.Writer.Rotation.{Denials, write_at}
use eventline.Writer.Rotating as Rotating
use eventline.Writer.Rotating.{
  RotatingFileWriter, Lines, rotating_writer, must_rotate, newline, append_line, write_all,
  and_then, grown,
}
use eventline.Writer.Plain.{FileWriter, write_line, file_writer, put, with_contents}

-- A call on a writer.
pub data Call : Type 0 where
  names_run : String → Call
  writes_scope : Scope → Call
  writes_record : Record → Option Scope → Call
  flushes : Call

abbrev pub call : {W : Type 0} → Writer W → Call → W → W × IoResult
call writer (names_run id) w = (writer.set_run_id id w, none)
call writer (writes_scope s) w = writer.write_scope s w
call writer (writes_record r s) w = writer.write_record r s w
call writer flushes w = writer.flush w

-- Calls, each with what is denied in it, and their results.
abbrev pub run : {W : Type 0} → (Denials → Writer W) → List (Denials × Call) → W → W × List IoResult
run writer [] w = (w, [])
run writer ((deny, c) ∷ calls) w =
    let (w', r) = call (writer deny) c w in let (w'', rs) = run writer calls w' in (w'', r ∷ rs)

-- No limit, the same bytes in the open file, and the same run.
pub record Same (p : FileWriter) (w : RotatingFileWriter) : Type 0 where
  pub no_limit : w.policy.max_bytes ≡ 0
  pub same_bytes : w.directory.contents w.file ≡ p.contents
  pub same_run : w.run_id ≡ p.run_id

-- The same states, and the same results.
abbrev SameCall : FileWriter × IoResult → RotatingFileWriter × IoResult → Type 0
SameCall (p, q) (w, r) = Same p w × (r ≡ q)

written :
    (contents : ℕ → List ℕ) (file : ℕ) (bytes : List ℕ) → write_at contents file bytes file ≡ bytes
written contents file bytes = ground arith

write_all-Same :
    (denied : Option (ℕ × String)) (bytes : List ℕ) (p : FileWriter) (w : RotatingFileWriter)
    → Same p w
    → SameCall (with_contents p (put denied bytes p.contents)) (write_all denied bytes w)
unfolding write_all with_contents
write_all-Same none bytes p w h = (
  record {
    no_limit = h.no_limit;
    same_bytes =
        written w.directory.contents w.file (w.directory.contents w.file ++ bytes)
        ∙ ap (λ c. c ++ bytes) h.same_bytes;
    same_run = h.same_run;
  },
  refl,
)
write_all-Same (some (n, message)) bytes p w h = (
  record {
    no_limit = h.no_limit;
    same_bytes =
        written w.directory.contents w.file (w.directory.contents w.file ++ take n bytes)
        ∙ ap (λ c. c ++ take n bytes) h.same_bytes;
    same_run = h.same_run;
  },
  refl,
)

must_rotate_never :
    (n : ℕ) (w : RotatingFileWriter) → w.policy.max_bytes ≡ 0 → must_rotate n w ≡ false
unfolding must_rotate
must_rotate_never n w free = rw free

-- The end of the line: the size of the rotating writer goes up where it could be written.
end_line-Same :
    (n : ℕ) (denied : Option (ℕ × String)) (p : FileWriter) (w : RotatingFileWriter)
    → Same p w
    → SameCall
        (with_contents p (put denied newline p.contents))
        (and_then (write_all denied newline w) (λ w. (grown n w, none)))
unfolding write_all with_contents
end_line-Same n none p w h =
    let (u, _) = write_all-Same none newline p w h in
    (record { no_limit = u.no_limit; same_bytes = u.same_bytes; same_run = u.same_run }, refl)
end_line-Same n (some (k, message)) p w h = write_all-Same (some (k, message)) newline p w h

append_line-Same :
    (deny : Denials) (line : List ℕ) (p : FileWriter) (w : RotatingFileWriter)
    → Same p w
    → SameCall (with_contents p (write_line deny line p.contents)) (append_line deny line w)
unfolding append_line write_line with_contents write_all
append_line-Same deny line p w h = elim (Option-cases deny.write_body) [
  | inl e ↦
      let (u, _) = write_all-Same none line p w h in
      rw e (
        end_line-Same (length line + 1) deny.write_newline
          (record p { contents = p.contents ++ line }) (write_all none line w).0 u)
  | inr ((n, message), e) ↦ rw e (write_all-Same (some (n, message)) line p w h)
]

write_line-Same :
    (deny : Denials) (line : List ℕ) (p : FileWriter) (w : RotatingFileWriter)
    → Same p w
    → SameCall (with_contents p (write_line deny line p.contents)) (Rotating.write_line deny line w)
unfolding Rotating.write_line
write_line-Same deny line p w h =
    rw (Rotating.write_line, must_rotate_never (length line + 1) w h.no_limit)
      (append_line-Same deny line p w h)

-- A line that depends on the run identifier.
run_line-Same :
    (deny : Denials) (line : String → List ℕ) (p : FileWriter) (w : RotatingFileWriter)
    → Same p w
    → SameCall
        (with_contents p (write_line deny (line p.run_id) p.contents))
        (Rotating.write_line deny (line w.run_id) w)
run_line-Same deny line p w h =
    subst
      (λ id.
        SameCall (with_contents p (write_line deny (line id) p.contents))
          (Rotating.write_line deny (line w.run_id) w))
      h.same_run (write_line-Same deny (line w.run_id) p w h)

module _ (lines : Lines) where
  call-Same :
      (deny : Denials) (c : Call) (p : FileWriter) (w : RotatingFileWriter)
      → Same p w
      → SameCall (call (file_writer lines deny) c p) (call (rotating_writer lines deny) c w)
  unfolding file_writer rotating_writer Rotating.flush
  call-Same deny (names_run id) p w h =
      (record { no_limit = h.no_limit; same_bytes = h.same_bytes; same_run = refl }, refl)
  call-Same deny (writes_scope s) p w h =
      if_both SameCall lines.is_jsonl (λ _. run_line-Same deny (lines.scope_line s) p w h)
        (λ _. (h, refl))
  call-Same deny (writes_record r s) p w h = run_line-Same deny (lines.record_line r s) p w h
  call-Same deny flushes p w h = (h, refl)

  -- A rotating writer without a limit and a plain writer, on files with the same bytes and for the same run:
  -- whatever is written, named or flushed, and whatever is denied in each call, the results are the same, and so
  -- are the bytes of the files.
  pub run-file_writer :
      (calls : List (Denials × Call)) (p : FileWriter) (w : RotatingFileWriter)
      → Same p w
      → Same (run (file_writer lines) calls p).0 (run (rotating_writer lines) calls w).0
        × ((run (rotating_writer lines) calls w).1 ≡ (run (file_writer lines) calls p).1)
  run-file_writer [] p w h = (h, refl)
  run-file_writer ((deny, c) ∷ calls) p w h =
      let (u, same) = call-Same deny c p w h in
      let (v, results) =
        run-file_writer calls (call (file_writer lines deny) c p).0
          (call (rotating_writer lines deny) c w).0 u in
      (
        v,
        ap
              (λ r.
                r ∷ (run (rotating_writer lines) calls (call (rotating_writer lines deny) c w).0).1)
              same
            ∙ ap (◌∷◌ (call (file_writer lines deny) c p).1) results,
      )
