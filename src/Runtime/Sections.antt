-- ===== src/Runtime/Sections.antt =====
-- The sections of the calls of the runtime (src/runtime/mod.rs), each of which runs under locks, and what
-- other threads do between two sections of a thread.
use eventline.Prelude.{
  ℕ, ◌+◌, ◌≤◌, ◌<◌, ◌≡◌, String, ◌∙◌, Bool, true, false, Option, List, [], ◌∷◌, arith, ◌==◌, ◌||◌,
  Run, ok, panic, ◌>>=◌, usize_max,
}
use eventline.Core.{EventKind, Outcome, Fields, ExitMessages, Record, Scope}
use eventline.Writer.{Writer}
use eventline.Journal.{Now}
use eventline.Journal.Valid.{IsValid}
use eventline.Runtime.{
  Runtime, enter_journal, write_entered, set_scope_exit_messages, exit_journal, write_left,
  record_emitted, count_emitted, trim_pass, write_emitted, flush, clear_journal, reset,
}

-- A section of a call, on some thread.
pub data Act : Type 0 where
  enters : String → Now → Act
  writes_entered : ℕ → Act
  exits : ℕ → Outcome → Now → Act
  writes_left : Option (Record × Scope) → Act
  emits : EventKind → String → Fields → Now → Act
  counts : Act
  trims : Act
  writes_emitted : Record → Option Scope → Act
  sets : ℕ → ExitMessages → Act
  flushes : Act
  clears : Act
  resets : Act

-- The sections of other threads, in order.
abbrev pub Gap : Type 0
Gap = List (ℕ × Act)

-- The threads are not this one.
unfoldable pub Others : ℕ → Gap → Type 0
Others t [] = 0 ≤ 0
Others t ((u, a) ∷ gap) = ((u == t) ≡ false) × Others t gap

-- Whether a section may drop scopes.
abbrev pub drops_scopes : Act → Bool
drops_scopes clears = true
drops_scopes trims = true
drops_scopes _ = false

abbrev pub some_drops : Gap → Bool
some_drops [] = false
some_drops ((u, a) ∷ gap) = drops_scopes a || some_drops gap

-- A panic ends the thread that it is in, and no lock stays held.
abbrev pub survived : {W : Type 0} → Runtime W → Run (Runtime W) → Runtime W
survived rt panic = rt
survived rt (ok rt') = rt'

module _ {W : Type 0} (sink : Writer W) where
  unfoldable pub act : Runtime W → ℕ → Act → Run (Runtime W)
  act rt t (enters name now) = do (rt', _) ← enter_journal sink rt t name now; ok rt'
  act rt t (writes_entered id) = ok (survived rt (write_entered sink rt id))
  act rt t (exits id outcome now) = do (rt', _) ← exit_journal sink rt t id outcome now; ok rt'
  act rt t (writes_left payload) = ok (write_left sink rt payload)
  act rt t (emits kind message fields now) = do
    (rt', _, _) ← record_emitted sink rt t kind message fields now
    ok rt'
  act rt t counts = ok (count_emitted sink rt).0
  act rt t trims = trim_pass sink rt
  act rt t (writes_emitted r scope) = ok (write_emitted sink rt r scope)
  act rt t (sets id msgs) = set_scope_exit_messages sink rt id msgs
  act rt t flushes = ok (flush sink rt).0
  act rt t clears = ok (clear_journal sink rt)
  act rt t resets = ok (reset sink rt t)

  unfoldable pub run_gap : Runtime W → Gap → Run (Runtime W)
  run_gap rt [] = ok rt
  run_gap rt ((u, a) ∷ gap) = do rt' ← act rt u a; run_gap rt' gap

  abbrev pub Room : ℕ → Runtime W → Type 0
  Room n rt =
      (rt.journal.next_scope_id + n < usize_max) × (rt.journal.next_record_id + n < usize_max)

  -- What sections leave: room for what was not used, and a stack of the thread.
  pub record Moved (t n : ℕ) (ids : List ℕ) (rt rt' : Runtime W) : Type 0 where
    pub valid : IsValid rt'.journal
    pub scope_ids : rt'.journal.next_scope_id ≤ rt.journal.next_scope_id + n
    pub record_ids : rt'.journal.next_record_id ≤ rt.journal.next_record_id + n
    pub stack : rt'.stacks t ≡ ids

  -- Sections that keep the stack of the thread, after others.
  pub Moved-then :
      (t m n k : ℕ) (ids : List ℕ) (rt rt' rt'' : Runtime W)
      → Moved t m ids rt rt'
      → Moved t n (rt'.stacks t) rt' rt''
      → m + n ≤ k
      → Moved t k ids rt rt''
  Moved-then t m n k ids rt rt' rt'' v w le = record {
    valid = w.valid;
    scope_ids = omega (arith, v.scope_ids, w.scope_ids);
    record_ids = omega (arith, v.record_ids, w.record_ids);
    stack = w.stack ∙ v.stack;
  }
