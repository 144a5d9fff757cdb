-- ===== src/Tests/Journals.antt =====
-- Concrete calls of a journal (src/journal/mod.rs) that writes identifiers to a list.
use eventline.Prelude.{ℕ, ◌≡◌, none, some, List, [], ◌∷◌, ◌++◌, Returns, arith, refl, true, false}
use eventline.Tests.{value_of, value_of-Returns}
use eventline.Core.{info, success, failure, aborted}
use eventline.Writer.{Writer}
use eventline.Buffer.Scopes.{live}
use eventline.Buffer.Positions
use eventline.Buffer.Records
use eventline.Buffer.Scopes
use eventline.Buffer.Scopes.Exit
use eventline.Journal.{
  Journal, Now, new, enter_scope, enter_scope_with_parent, open_scope, write_scope_metadata,
  record_no_write, record_no_write_in_scope, exit_scope_no_write, exit_record, leave,
}
use eventline.Journal.Calls.{record_event, exit_scope, write_exit, trim_scopes}
use eventline.Journal.Calls
use eventline.Load.{same_string}
use eventline.Wire.RoundTrip.{AllOnWire}
use eventline.Journal.Guard.{ScopeGuard}
use eventline.Journal.Leaving.{
  GuardCall, exits, results, first_exit, live_guard, exit_once, live_guard-exit_once,
}
use eventline.Journal.Valid.{IsValid, Opens, open_scope_lem}
use eventline.Journal.Entries.{RecordsEvent, record_no_write_in_scope_lem}
use eventline.Journal.Exits.{ExitsScope, exit_scope_no_write_lem}
use eventline.Journal.Session as Session
use eventline.Journal.Session.{Call, run-IsValid}
use eventline.Journal.Nesting.{
  Block, done, logs, scoped, scopes_in, records_in, run_block, Nested, run_block-Nested,
}

abbrev pub sink : Writer (List ℕ)
sink = record {
  wants_scope_metadata = λ w. true;
  set_run_id = λ id w. w;
  write_scope = λ s w. (w ++ s.id ∷ [], none);
  write_record = λ r scope w. (w ++ r.id ∷ [], none);
  flush = λ w. (w, none);
}

abbrev pub at : ℕ → Now
at t = record { instant = t; millis = t; nanos = t }

abbrev fresh : Journal (List ℕ)
fresh = new "r"

abbrev calls : List Call
calls =
    Session.enters "outer" (at 1)
    ∷ Session.logs info "m" none (at 2)
    ∷ Session.enters "inner" (at 3)
    ∷ Session.exits 1 failure (at 5)
    ∷ Session.trims_scopes 0
    ∷ []

run-IsValid_example : Returns (Session.run sink fresh calls) IsValid
run-IsValid_example = run-IsValid sink "r" calls (omega arith)

-- The journal after these calls: scope 0 is open and current, scope 1 is evicted.
abbrev pub busy : Journal (List ℕ)
busy = value_of fresh (Session.run sink fresh calls)

pub busy-IsValid : IsValid busy
busy-IsValid = value_of-Returns IsValid fresh (Session.run sink fresh calls) run-IsValid_example

-- Its counters and its current scope.
busy_counts : (busy.next_scope_id ≡ 2) × (busy.next_record_id ≡ 2) × (busy.current_scope ≡ some 0)
unfolding Session.run Session.step new enter_scope enter_scope_with_parent open_scope
    write_scope_metadata record_no_write record_no_write_in_scope exit_scope_no_write exit_record
    leave record_event exit_scope write_exit trim_scopes Positions.note Records.push Scopes.push
    Scopes.get Scopes.place Scopes.set_insert Scopes.trim Scopes.evict_loop Scopes.release
    Scopes.drop_vacant Scopes.settle Exit.get_scope_by_id Exit.finalize_scope_exit_at Exit.get_mut
    Exit.finalize_at Exit.exited Exit.exit_duration Exit.finish_clock
busy_counts = (refl, refl, refl)

-- It has a run identifier, and its exits name their scopes.
pub busy-AllOnWire : (same_string busy.run_id "" ≡ false) × AllOnWire (Calls.records busy)
unfolding Session.run Session.step new enter_scope enter_scope_with_parent open_scope
    write_scope_metadata record_no_write record_no_write_in_scope exit_scope_no_write exit_record
    leave record_event exit_scope write_exit trim_scopes Positions.note Records.push Scopes.push
    Scopes.get Scopes.place Scopes.set_insert Scopes.trim Scopes.evict_loop Scopes.release
    Scopes.drop_vacant Scopes.settle Exit.get_scope_by_id Exit.finalize_scope_exit_at Exit.get_mut
    Exit.finalize_at Exit.exited Exit.exit_duration Exit.finish_clock Calls.records
    Records.records_snapshot
busy-AllOnWire = (refl, (refl, (refl, tt)))

open_scope_lem_example :
    Returns
      (open_scope sink busy (some "next") (some 0) (at 6))
      (Opens sink busy (some "next") (some 0) (at 6))
open_scope_lem_example =
    open_scope_lem sink busy (some "next") (some 0) (at 6) busy-IsValid
      (omega (arith, busy_counts.0))

record_no_write_in_scope_lem_example :
    Returns
      (record_no_write_in_scope sink busy info "m" none (some 0) (at 6))
      (RecordsEvent sink busy info "m" none (some 0) (at 6))
record_no_write_in_scope_lem_example =
    record_no_write_in_scope_lem sink busy info "m" none (some 0) (at 6) busy-IsValid
      (omega (arith, busy_counts.1))

exit_scope_no_write_lem_example :
    Returns (exit_scope_no_write sink busy 0 aborted (at 6)) (ExitsScope sink busy 0 aborted (at 6))
exit_scope_no_write_lem_example =
    exit_scope_no_write_lem sink busy 0 aborted (at 6) busy-IsValid (omega (arith, busy_counts.1))

-- A scope in a scope, with an event in each.
abbrev block : Block
block =
    scoped "a" (at 7)
      (logs info "in a" none (at 8)
        (scoped "b" (at 9) (logs info "in b" none (at 10) done) failure (at 11) done))
      success (at 12) (logs info "after" none (at 13) done)

run_block-Nested_example :
    Returns (run_block sink busy block) (Nested busy (scopes_in block) (records_in block))
unfolding scopes_in records_in
run_block-Nested_example =
    run_block-Nested sink busy block busy-IsValid (omega (arith, busy_counts.0))
      (omega (arith, busy_counts.1))

-- A guard of scope 0, exited twice and dropped during a panic.
abbrev guard : ScopeGuard (List ℕ)
guard = record { journal = busy; scope_id = 0; exited = false }

abbrev guard_calls : List GuardCall
guard_calls = results false (at 14) ∷ exits success (at 15) ∷ []

live_guard-exit_once_example :
    live_guard sink guard guard_calls true (at 16)
    ≡ exit_once sink guard
        (first_exit guard_calls true (at 16)).0
        (first_exit guard_calls true (at 16)).1
live_guard-exit_once_example = live_guard-exit_once sink guard guard_calls true (at 16) refl
