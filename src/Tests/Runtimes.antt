-- ===== src/Tests/Runtimes.antt =====
-- Concrete calls of the runtime (src/runtime) and of writers (src/journal/writer.rs).
use eventline.Prelude.{
  ℕ, ◌+◌, ◌%◌, ◌^◌, ◌≡◌, ◌||◌, refl, true, none, List, [], ◌∷◌, map, arith, ◌==◌, if◌then◌else◌,
  Returns, ◌&&◌,
}
use eventline.Core.{info, success, aborted}
use eventline.Tests.Buffers.{entry}
use eventline.Tests.Journals.{sink, at}
use eventline.Tests.Replays.{some_scope}
use eventline.Journal.{new}
use eventline.Journal.Valid.{IsValid, new-IsValid}
use eventline.Writer.Multi.{multi_writer, first_error, multi_writer-first_error}
use eventline.Runtime
use eventline.Runtime.Levels.{
  LogLevel, Config, default_config, as_u8, effective_level, enabled_for_record,
  record_enabled_at_level, enabled_for_record-effective_level,
}
use eventline.Buffer.Scopes.{live}
use eventline.Runtime.Threads.{Stepped, kept_records, kept_scopes, emitted, emit-kept_records}
use eventline.Runtime.Sections
use eventline.Runtime.Sections.{Others, Room}
use eventline.Runtime.Between.{Worked}
use eventline.Runtime.Interleaving.{
  Work, done, scoped, elsewhere, Avoids, sections_in, run_work, run_work-Worked,
}
use eventline.Runtime.Guards
use eventline.Prelude.{◌>>=◌, ok, false}

-- The console at its level, and a file at `debug`.
abbrev both_on : Config
both_on = record default_config { file_enabled = true }

enabled_for_record-effective_level_example :
    enabled_for_record (as_u8 (effective_level both_on)) (entry 3)
    ≡ (true && record_enabled_at_level (entry 3) LogLevel.info)
      || (true && record_enabled_at_level (entry 3) LogLevel.debug)
enabled_for_record-effective_level_example = enabled_for_record-effective_level both_on (entry 3)

multi_writer-first_error_example :
    let multi = multi_writer sink in
    let ws : List (List ℕ) = (7 ∷ []) ∷ [] ∷ [] in
    (multi.write_scope (some_scope 1 none) ws ≡ (
      map (λ w. (sink.write_scope (some_scope 1 none) w).0) ws,
      first_error (map (λ w. (sink.write_scope (some_scope 1 none) w).1) ws),
    ))
    × (multi.write_record (entry 1) none ws ≡ (
      map (λ w. (sink.write_record (entry 1) none w).0) ws,
      first_error (map (λ w. (sink.write_record (entry 1) none w).1) ws),
    ))
    × (multi.flush ws
        ≡ (map (λ w. (sink.flush w).0) ws, first_error (map (λ w. (sink.flush w).1) ws)))
multi_writer-first_error_example =
    multi_writer-first_error sink ((7 ∷ []) ∷ [] ∷ []) (some_scope 1 none) (entry 1) none

-- A runtime that has just started, with a scope of another run of thread 2 on its stack.
abbrev pub started : Runtime.Runtime (List ℕ)
started = record {
  journal = new "r";
  writer = [];
  config = default_config;
  last_cfg = none;
  emit_count = 0;
  stacks = λ t. if t == 2 then 9 ∷ [] else [];
}

started-IsValid : IsValid started.journal
started-IsValid = new-IsValid "r"

started_counts : (started.journal.next_scope_id ≡ 0) × (started.journal.next_record_id ≡ 0)
unfolding new
started_counts = (refl, refl)

-- The first call is a 128th one: its count is 0.
emit-kept_records_example : Returns (Runtime.emit sink started 2 info "m" none (at 5)) λ rt'.
    Stepped sink started started.stacks rt'
    × (rt'.emit_count ≡ (started.emit_count + 1) % 2 ^ 64)
    × (rt'.journal.buffer.records.entries
        ≡ kept_records sink started (emitted sink started 2 info "m" none (at 5)))
    × (live rt'.journal.buffer.scopes.entries ≡ kept_scopes sink started)
emit-kept_records_example =
    emit-kept_records sink started 2 info "m" none (at 5) started-IsValid
      (omega (arith, started_counts.1))

-- Thread 1 nests two scopes. While it enters the outer one, thread 2 enters a scope; then thread 2 exits the
-- outer scope, clears in the middle of an `emit` of thread 1, and writes the metadata of a scope that is gone.
abbrev work : Work
work =
    scoped "a" (at 1) ((2, Sections.enters "c" (at 1)) ∷ [])
      (elsewhere ((2, Sections.exits 0 aborted (at 2)) ∷ []) (
        scoped "b" (at 3) []
          (Work.emits info "m" none (at 4) ((2, Sections.clears) ∷ []) ((2, Sections.resets) ∷ [])
            ((2, Sections.writes_entered 1) ∷ []) done)
          success (at 5) [] done))
      success (at 6) ((2, Sections.flushes) ∷ []) done

work-Avoids : Avoids 1 work
unfolding Avoids Others
work-Avoids = ground arith

work-Room : Room sink (sections_in work) started
unfolding sections_in
work-Room = (omega (arith, started_counts.0), omega (arith, started_counts.1))

run_work-Worked_example :
    Returns (run_work sink started 1 work) (Worked sink 1 (sections_in work) started)
run_work-Worked_example = run_work-Worked sink started 1 work work-Avoids started-IsValid work-Room

abbrev guard_calls : List Guards.GuardCall
guard_calls = Guards.results false (at 7) ∷ Guards.exits success (at 8) ∷ []

live_guard-first_outcome_example :
    Guards.live_guard sink started 1
      (record { id = 0; exited = false })
      guard_calls
      (Guards.drops true)
      (at 9)
    ≡ Runtime.exit_scope sink started 1 0
        (Guards.first_outcome guard_calls (Guards.drops true) (at 9)).0
        (Guards.first_outcome guard_calls (Guards.drops true) (at 9)).1
      >>= λ rt'. ok (rt', record { id = 0; exited = true })
live_guard-first_outcome_example =
    Guards.live_guard-first_outcome sink started 1 0 guard_calls (Guards.drops true) (at 9)
