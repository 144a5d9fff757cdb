-- ===== src/Tests/Buffers.antt =====
-- Concrete calls of the two stores of src/journal/buffer.rs.
use eventline.Prelude.{
  ℕ, ◌≡◌, ◌≤◌, Option, none, some, List, [], ◌∷◌, Returns, length, arith, refl, ◌-◌,
}
use eventline.Core.{Record, event, info, no_messages}
use eventline.Tests.{value_of, value_of-Returns}
use eventline.Buffer.Records.{no_records}
use eventline.Buffer.Records.Vector as RecordsVector
use eventline.Buffer.Scopes
use eventline.Buffer.Scopes.{Scopes, BufferedScope, no_scopes, live}
use eventline.Buffer.Scopes.Slots.{evict, closed_count}
use eventline.Buffer.Scopes.Sound as ScopesSound
use eventline.Buffer.Scopes.Trim.{IsCompact, trim-evict}
use eventline.Buffer.Scopes.Vector as ScopesVector

abbrev pub entry : ℕ → Record
entry id = record { id = id; scope = none; time_ns = 0; kind = event info "m" none }

abbrev record_calls : List RecordsVector.Op
record_calls =
    RecordsVector.pushes (entry 0)
    ∷ RecordsVector.pushes (entry 1)
    ∷ RecordsVector.asks_id 0
    ∷ RecordsVector.pushes (entry 2)
    ∷ RecordsVector.trims 2
    ∷ RecordsVector.asks_id 0
    ∷ RecordsVector.asks_id 2
    ∷ []

run_records : RecordsVector.vector_run [] record_calls ≡ (
  entry 1 ∷ entry 2 ∷ [],
  RecordsVector.nothing
      ∷ RecordsVector.nothing
      ∷ RecordsVector.found (some (entry 0))
      ∷ RecordsVector.nothing
      ∷ RecordsVector.nothing
      ∷ RecordsVector.found none
      ∷ RecordsVector.found (some (entry 2))
      ∷ [],
)
unfolding RecordsVector.vector_run RecordsVector.vector_step
run_records = refl

run-vector_example :
    Returns
      (RecordsVector.run no_records record_calls)
      λ (t, answers). (t.entries, answers) ≡ RecordsVector.vector_run [] record_calls
run-vector_example = RecordsVector.run-vector record_calls (omega arith)

-- A scope that is open or closed, without a clock.
abbrev pub some_scope : ℕ → Option ℕ → BufferedScope
some_scope id closed = record {
  scope = record {
    id = id;
    parent = none;
    entered_at = 0;
    name = none;
    exited_at = closed;
    exit_messages = no_messages;
  };
  clock = none;
}

abbrev scope_calls : List ScopesVector.Op
scope_calls =
    ScopesVector.pushes (some_scope 0 none)
    ∷ ScopesVector.pushes (some_scope 1 none)
    ∷ ScopesVector.exits 0 5 7
    ∷ ScopesVector.exits 0 6 8
    ∷ ScopesVector.trims 0
    ∷ ScopesVector.asks_id 0
    ∷ ScopesVector.asks_len
    ∷ []

run-vector_scopes_example :
    Returns
      (ScopesVector.run no_scopes scope_calls)
      λ (t, answers). (live t.entries, answers) ≡ ScopesVector.vector_run [] scope_calls
run-vector_scopes_example = ScopesVector.run-vector_scopes scope_calls (omega arith)

-- Two closed scopes and an open one.
abbrev three_calls : List ScopesVector.Op
three_calls =
    ScopesVector.pushes (some_scope 0 (some 3))
    ∷ ScopesVector.pushes (some_scope 1 none)
    ∷ ScopesVector.pushes (some_scope 2 (some 4))
    ∷ []

abbrev three : Scopes
three = (value_of (no_scopes, []) (ScopesVector.run no_scopes three_calls)).0

three-IsSound : ScopesSound.IsSound three
three-IsSound =
    value_of-Returns (λ p. ScopesSound.IsSound p.0) (no_scopes, [])
      (ScopesVector.run no_scopes three_calls) (ScopesVector.run-IsSound three_calls (omega arith))

-- The oldest closed scope is evicted.
three_trimmed :
    live (value_of no_scopes (Scopes.trim 1 three)).entries
    ≡ some_scope 1 none ∷ some_scope 2 (some 4) ∷ []
unfolding ScopesVector.run ScopesVector.step Scopes.trim Scopes.push live Scopes.evict_loop
    eventline.Buffer.Positions.note Scopes.set_insert Scopes.release Scopes.drop_vacant
    Scopes.settle
three_trimmed = refl

trim-evict_example : Returns (Scopes.trim 1 three) λ t.
    ScopesSound.IsSound t
    × IsCompact t
    × (live t.entries ≡ evict (closed_count (live three.entries) - 1) (live three.entries))
    × (length t.entries ≤ length three.entries)
trim-evict_example = trim-evict 1 three three-IsSound
