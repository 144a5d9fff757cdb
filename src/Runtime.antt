-- ===== src/Runtime.antt =====
-- The state of the runtime and its scope calls (src/runtime/mod.rs and scope_context.rs). The statics are
-- one record; `stacks` holds the thread-local scope stack of each thread, innermost scope first. The
-- runtime's journal has no writer of its own. The diagnostics stand with the outputs.
pub mod Levels
pub mod Filtered
pub mod Threads
pub mod Sections
pub mod Gaps
pub mod Between
pub mod Interleaving
pub mod Contexts
pub mod Guards
pub mod Header
pub mod Outputs
use eventline.Prelude.{
  ℕ, zero, suc, ◌+◌, ◌-◌, ◌≤◌, ◌<◌, ◌*◌, ◌/◌, ◌%◌, ◌^◌, min, max, ◌≡◌, ◌⊎◌, ◌≢◌, ◌↔◌, not, ◌||◌,
  String, is_none, or_else, refl, sym, ap, ◌∙◌, Bool, true, false, Option, none, some, List, [],
  ◌∷◌, ◌++◌, inl, inr, map, arith, ◌==◌, ltb, leb, if◌then◌else◌, Run, ok, panic, ◌>>=◌, unwrap,
  Returns, usize_max, add_usize, sub_usize, add_usize_lem, sub_usize_lem, checked_add, is_none_or,
  is_some, length, length-append, length-set, length-drop, get_elem?, set, filter, ◌&&◌, position,
  find?-position, position-lt-length, subst, find?, drop, HashMap, insert, remove, no_keys,
  Option-cases, Bool-cases, ==_iff,
}
use eventline.Core.{EventKind, Outcome, Fields, ExitMessages, Record, Scope}
use eventline.Writer.{Writer, IoResult}
use eventline.Journal
use eventline.Journal.{Journal, Now}
use eventline.Journal.Calls
use eventline.Runtime.Levels.{Config, default_config}
use eventline.Runtime.Filtered.{NoopWriter, noop_writer}

pub record Runtime (W : Type 0) : Type 0 where
  pub journal : Journal NoopWriter
  pub writer : W
  pub config : Config
  pub last_cfg : Option Config
  pub emit_count : ℕ
  pub stacks : ℕ → List ℕ

-- `TRIM_INTERVAL`.
abbrev pub trim_interval : ℕ
trim_interval = 128

abbrev pub with_stack : (ℕ → List ℕ) → ℕ → List ℕ → ℕ → List ℕ
with_stack stacks t stack u = if t == u then stack else stacks u

-- `stack.borrow().last().copied()`.
abbrev pub top : List ℕ → Option ℕ
top [] = none
top (id ∷ ids) = some id

-- `stack.iter().rposition(..)` and `stack.remove(pos)`.
unfoldable pub remove_innermost : ℕ → List ℕ → List ℕ
remove_innermost id [] = []
remove_innermost id (x ∷ xs) = if x == id then xs else x ∷ remove_innermost id xs

unfoldable pub remove_scope_from_stack : ℕ → List ℕ → List ℕ
unfolding remove_innermost
remove_scope_from_stack id [] = []
remove_scope_from_stack id (x ∷ xs) = if x == id then xs else remove_innermost id (x ∷ xs)

-- The runtime with another journal, and with another stack of one thread.
abbrev pub with_journal : {W : Type 0} → Runtime W → Journal NoopWriter → Runtime W
with_journal rt j = record rt { journal = j }

abbrev pub on_thread : {W : Type 0} → Runtime W → ℕ → List ℕ → Runtime W
on_thread rt t stack = record rt { stacks = with_stack rt.stacks t stack }

module _ {W : Type 0} (sink : Writer W) where
  -- The sections of `enter_scope`, each under locks of its own: the journal and the stack; the writer.
  unfoldable pub enter_journal : Runtime W → ℕ → String → Now → Run (Runtime W × ℕ)
  enter_journal rt t name now = do
    (j, id) ← Journal.enter_scope_with_parent noop_writer rt.journal name (top (rt.stacks t)) now
    ok (on_thread (with_journal rt j) t (id ∷ rt.stacks t), id)

  unfoldable pub write_entered : Runtime W → ℕ → Run (Runtime W)
  write_entered rt id =
      if sink.wants_scope_metadata rt.writer
      then (do
        found ← Calls.get_scope rt.journal id
        s ← unwrap found
        ok (record rt { writer = (sink.write_scope s rt.writer).0 }))
      else ok rt

  -- `enter_scope`, on a thread.
  unfoldable pub enter_scope : Runtime W → ℕ → String → Now → Run (Runtime W × ℕ)
  enter_scope rt t name now = do
    (rt', id) ← enter_journal rt t name now
    rt'' ← write_entered rt' id
    ok (rt'', id)

  -- `set_scope_exit_messages`.
  unfoldable pub set_scope_exit_messages : Runtime W → ℕ → ExitMessages → Run (Runtime W)
  set_scope_exit_messages rt id msgs = do
    (j, _) ← Journal.set_scope_exit_messages noop_writer rt.journal id msgs
    ok (with_journal rt j)

  -- The sections of `exit_scope`: the journal and the stack; the writer.
  unfoldable pub exit_journal :
      Runtime W → ℕ → ℕ → Outcome → Now → Run (Runtime W × Option (Record × Scope))
  exit_journal rt t id outcome now = do
    (j, _, payload) ← Journal.exit_scope_no_write noop_writer rt.journal id outcome now
    ok (on_thread (with_journal rt j) t (remove_scope_from_stack id (rt.stacks t)), payload)

  unfoldable pub write_left : Runtime W → Option (Record × Scope) → Runtime W
  write_left rt none = rt
  write_left rt (some (r, s)) = record rt { writer = (sink.write_record r (some s) rt.writer).0 }

  -- `exit_scope`, on a thread.
  unfoldable pub exit_scope : Runtime W → ℕ → ℕ → Outcome → Now → Run (Runtime W)
  exit_scope rt t id outcome now = do
    (rt', payload) ← exit_journal rt t id outcome now
    ok (write_left rt' payload)

  -- The trim pass of `emit`.
  unfoldable pub trim_pass : Runtime W → Run (Runtime W)
  trim_pass rt = do
    j ← Calls.trim_records rt.journal rt.config.max_journal_records
    k ← Calls.trim_scopes j rt.config.max_journal_records
    ok (with_journal rt k)

  -- The sections of `emit`: the journal; the counter, which is read before it goes up; the trim pass, where
  -- it is due; the writer.
  unfoldable pub record_emitted :
      Runtime W → ℕ → EventKind → String → Fields → Now → Run (Runtime W × Record × Option Scope)
  record_emitted rt t kind message fields now = do
    (j, _, r, scope) ←
        Journal.record_no_write_in_scope noop_writer rt.journal kind message fields
          (top (rt.stacks t)) now
    ok (with_journal rt j, r, scope)

  unfoldable pub count_emitted : Runtime W → Runtime W × ℕ
  count_emitted rt = (record rt { emit_count = (rt.emit_count + 1) % 2 ^ 64 }, rt.emit_count)

  unfoldable pub trim_due : Runtime W → ℕ → Run (Runtime W)
  trim_due rt count = if count % trim_interval == 0 then trim_pass rt else ok rt

  unfoldable pub write_emitted : Runtime W → Record → Option Scope → Runtime W
  write_emitted rt r scope = record rt { writer = (sink.write_record r scope rt.writer).0 }

  -- `emit`, on a thread.
  unfoldable pub emit : Runtime W → ℕ → EventKind → String → Fields → Now → Run (Runtime W)
  emit rt t kind message fields now = do
    (recorded, r, scope) ← record_emitted rt t kind message fields now
    let (counted, count) = count_emitted recorded
    trimmed ← trim_due counted count
    ok (write_emitted trimmed r scope)

  -- `flush`.
  unfoldable pub flush : Runtime W → Runtime W × IoResult
  flush rt = let (w, r) = sink.flush rt.writer in (record rt { writer = w }, r)

  -- The sections of `clear`: the journal, under the lock of the writer; the counter and the stack.
  unfoldable pub clear_journal : Runtime W → Runtime W
  unfolding flush
  clear_journal rt =
      let flushed = (flush rt).0 in record flushed { journal = Calls.clear rt.journal }

  unfoldable pub reset : Runtime W → ℕ → Runtime W
  reset rt t = record (on_thread rt t []) { emit_count = 0 }

  -- `clear`, on a thread.
  unfoldable pub clear : Runtime W → ℕ → Runtime W
  unfolding clear_journal reset
  clear rt t = reset (clear_journal rt) t

module _ {W : Type 0} where
  -- `set_journal_retention`.
  unfoldable pub set_journal_retention : Runtime W → ℕ → Runtime W
  set_journal_retention rt max_records =
      let kept = max max_records 1 in
      record rt {
        config = record (rt.config) { max_journal_records = kept };
        last_cfg = elim rt.last_cfg [
          | none ↦ none
          | some cfg ↦ some (record cfg { max_journal_records = kept })
        ];
      }

  -- `InstalledContext::enter` and its drop: the stack of the thread and a context change places.
  unfoldable pub swap_stack : Runtime W → ℕ → List ℕ → Runtime W × List ℕ
  swap_stack rt t stack = (on_thread rt t stack, rt.stacks t)

  -- `WithScopeContext::poll`: a step of the future under its own stack.
  unfoldable pub poll :
      (Runtime W → Run (Runtime W)) → Runtime W → ℕ → List ℕ → Run (Runtime W × List ℕ)
  unfolding swap_stack
  poll step rt t context = do
    let (inside, previous) = swap_stack rt t context
    after ← step inside
    ok (swap_stack after t previous)
