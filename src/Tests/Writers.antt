-- ===== src/Tests/Writers.antt =====
-- Concrete calls of the rotating and of the background writer (src/journal/writer.rs).
use eventline.Prelude.{
  ℕ, ◌+◌, ◌≤◌, ◌≡◌, refl, Bool, true, false, none, some, List, [], ◌∷◌, ◌++◌, arith, inl, inr,
  length, or_else, ◌==◌, if◌then◌else◌,
}
use eventline.Writer.{Writer}
use eventline.Writer.Multi.{first_error}
use eventline.Writer.Rotation.{Directory, Denials, LogPolicy, denial, rotate}
use eventline.Writer.Rotation.Shifted.{halts, halted, moved, rotate-moved}
use eventline.Writer.Rotating.{RotatingFileWriter, newline, with_style, write_line, must_rotate}
use eventline.Writer.Plain.{FileWriter, file_writer}
use eventline.Writer.Rotating.{Lines, rotating_writer}
use eventline.Writer.Rotating.Unrotated as Unrotated
use eventline.Writer.Rotating.Unrotated.{Same, run-file_writer}
use eventline.Writer.Rotating.Limits.{Sized, write_lines, with_style-Sized}
use eventline.Writer.Rotating.Reopening.{write_line-denied_open}
use eventline.Writer.Background as Background
use eventline.Writer.Background.{
  AsyncWriter, Msg, best_effort, blocking, spawn_with_mode, drop_writer, flush,
}
use eventline.Writer.Background.Order.{Call, writes_record, works, settled, run, all_taken_in}
use eventline.Writer.Background.Ready.{deliver, results, offered}
use eventline.Writer.Background.Delivery.{drop_writer-deliver}
use eventline.Writer.Background.Lossy.{Thinned, entries, drop_writer-Thinned}
use eventline.Writer.Background.Flushing.{flush-first_error}
use eventline.Tests.Buffers.{entry}
use eventline.Tests.Journals.{sink}

abbrev all_allowed : Denials
all_allowed = record {
  create_dir = none;
  metadata = none;
  remove = none;
  rename = λ i. none;
  open_file = none;
  flush = none;
  write_body = none;
  write_newline = none;
}

-- The second backup is not moved.
abbrev second_denied : Denials
second_denied = record all_allowed { rename = λ i. if i == 2 then some "denied" else none }

abbrev open_denied : Denials
open_denied = record all_allowed { open_file = some "denied" }

-- The log and two backups.
abbrev logs : Directory
logs = record {
  names = λ i.
      if i == 0 then some 7 else (if i == 1 then some 5 else (if i == 2 then some 3 else none));
  contents = λ file. if file == 7 then 1 ∷ 2 ∷ 3 ∷ [] else [];
  next = 8;
}

rotate-moved_example :
    let (d', r) = rotate second_denied 3 logs in
    (d'.contents ≡ logs.contents)
    × (r ≡ halted second_denied (halts second_denied 2))
    × ((j : ℕ) → d'.names j ≡ moved (halts second_denied 2) 2 logs.names j)
rotate-moved_example = rotate-moved second_denied 2 logs

abbrev policy : LogPolicy
policy = record { max_bytes = 5; keep_backups = 1 }

abbrev opened_log : RotatingFileWriter
opened_log = record { file = 7; policy = policy; current_size = 3; run_id = "r"; directory = logs }

abbrev two_lines : List (Denials × List ℕ)
two_lines = (open_denied, 4 ∷ 5 ∷ 6 ∷ []) ∷ (all_allowed, 9 ∷ []) ∷ []

with_style-Sized_example : Sized 5 (write_lines two_lines opened_log)
with_style-Sized_example =
    with_style-Sized all_allowed false policy "r" logs opened_log 5 two_lines opens fits
      (omega arith) (omega arith) (omega arith)
      ((refl, refl), omega arith, ((refl, refl), omega arith, tt))
  where
    opens : (with_style all_allowed false policy "r" logs).1 ≡ inr opened_log
    opens = unfold with_style in refl

    fits : (file : ℕ) → length (logs.contents file) ≤ 5
    fits file = ground arith

write_line-denied_open_example :
    let first = write_line open_denied (4 ∷ 5 ∷ 6 ∷ []) opened_log in
    let second = write_line all_allowed (9 ∷ []) first.0 in
    (first.1 ≡ some (denial "denied"))
    × (second.1 ≡ none)
    × (second.0.directory.names 0 ≡ none)
    × (second.0.directory.names 1 ≡ some 7)
    × (second.0.directory.contents 7 ≡ (logs.contents 7 ++ 9 ∷ []) ++ newline)
write_line-denied_open_example =
    write_line-denied_open open_denied all_allowed "denied" (4 ∷ 5 ∷ 6 ∷ []) (9 ∷ []) 0 opened_log
      refl refl (λ i. refl) (refl, refl) refl refl full fits
  where
    full : must_rotate 4 opened_log ≡ true
    full = unfold must_rotate in refl

    fits : must_rotate 2 opened_log ≡ false
    fits = unfold must_rotate in refl

-- An inner writer that never panics.
abbrev never : Msg → List ℕ → Bool
never msg w = false

-- Three entries for a queue of one, with a round of the worker in between.
abbrev queue_calls : List Call
queue_calls =
    writes_record (entry 1) none
    ∷ writes_record (entry 2) none
    ∷ works
    ∷ writes_record (entry 3) none
    ∷ []

drop_writer-deliver_example :
    let a = run sink never queue_calls (spawn_with_mode sink never none [] 1 blocking) in
    ((drop_writer sink never a).worker.inner
      ≡ (sink.flush (deliver sink (offered sink true queue_calls) [])).0)
    × ((drop_writer sink never a).state.dropped ≡ 0)
drop_writer-deliver_example = drop_writer-deliver sink never (λ msg w. refl) [] 1 queue_calls

drop_writer-Thinned_example :
    let start = spawn_with_mode sink never none [] 1 best_effort in
    let dropped = drop_writer sink never (run sink never queue_calls start) in
    let taken = all_taken_in sink never queue_calls start in
    (dropped.worker.inner ≡ (sink.flush (deliver sink taken [])).0)
    × Thinned taken (offered sink true queue_calls)
    × (dropped.state.dropped + entries taken ≡ entries (offered sink true queue_calls))
drop_writer-Thinned_example =
    drop_writer-Thinned sink never (λ msg w. refl) true [] 1 queue_calls refl (omega arith)

-- The second entry found the queue full.
lost_one :
    all_taken_in sink never queue_calls (spawn_with_mode sink never none [] 1 best_effort)
    ≡ Background.entry (entry 1) none ∷ Background.entry (entry 3) none ∷ []
unfolding all_taken_in spawn_with_mode Background.write_record
lost_one = refl

-- A sink whose writes fail.
abbrev failing : Writer (List ℕ)
failing = record sink { write_record = λ r scope w. (w, some (denial "full")) }

abbrev just_opened : AsyncWriter (List ℕ)
just_opened = record {
  worker = record { inner = []; pending_error = none; reply = none; alive = true };
  queue = [];
  queue_cap = 1;
  mode = best_effort;
  scope_metadata = true;
  has_sender = true;
  state = record { dropped = 0; failed = 0; last_error = none };
}

flush-first_error_example :
    let taken = all_taken_in failing never queue_calls just_opened in
    let r = flush failing never (run failing never queue_calls just_opened) in
    (r.1
      ≡ or_else
          (first_error (results failing taken []))
          (failing.flush (deliver failing taken [])).1)
    × ((settled failing never r.0).pending_error ≡ none)
flush-first_error_example =
    flush-first_error failing never (λ msg w. refl) best_effort true 0 just_opened queue_calls
      (record {
        lives = refl;
        sends = refl;
        same_mode = refl;
        same_wants = refl;
        same_dropped = refl;
      })
      (inl refl) refl tt

abbrev id_lines : Lines
id_lines = record {
  is_jsonl = true;
  scope_line = λ s run_id. s.id ∷ [];
  record_line = λ r s run_id. r.id ∷ [];
}

abbrev plain_log : FileWriter
plain_log = record { contents = 1 ∷ 2 ∷ 3 ∷ []; run_id = "r" }

abbrev endless_log : RotatingFileWriter
endless_log = record opened_log { policy = record { max_bytes = 0; keep_backups = 1 } }

-- The second record is denied after its bytes.
abbrev file_calls : List (Denials × Unrotated.Call)
file_calls =
    (all_allowed, Unrotated.writes_record (entry 1) none)
    ∷ (
      record all_allowed { write_newline = some (0, "denied") },
      Unrotated.writes_record (entry 2) none,
    )
    ∷ (all_allowed, Unrotated.flushes)
    ∷ []

run-file_writer_example :
    let plain = Unrotated.run (file_writer id_lines) file_calls plain_log in
    let rotating = Unrotated.run (rotating_writer id_lines) file_calls endless_log in
    Same plain.0 rotating.0 × (rotating.1 ≡ plain.1)
run-file_writer_example =
    run-file_writer id_lines file_calls plain_log endless_log
      (record { no_limit = refl; same_bytes = refl; same_run = refl })
