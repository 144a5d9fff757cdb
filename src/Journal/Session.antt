-- ===== src/Journal/Session.antt =====
-- Whole histories of calls on a journal (src/journal/mod.rs): none panics, and the identifiers stay
-- unique and in order.
use eventline.Prelude.{
  ℕ, ◌<◌, max, String, refl, Option, List, [], ◌∷◌, arith, Run, ok, ◌>>=◌, Returns, usize_max,
  length,
}
use eventline.Core.{EventKind, Outcome, Fields, ExitMessages}
use eventline.Writer.{Writer}
use eventline.Journal.{
  Journal, Now, new, enter_scope, enter_scope_with_parent, enter_scope_unnamed,
  set_scope_exit_messages,
}
use eventline.Journal.Calls.{record_event, exit_scope, trim_records, trim_scopes, get_record, clear}
use eventline.Journal.Valid.{IsValid, new-IsValid}
use eventline.Journal.Steps.{
  Keeps, Room, enter_scope_with_parent_lem, enter_scope_lem, enter_scope_unnamed_lem, messages_lem,
  record_event_lem, exit_scope_lem, trim_records_lem, trim_scopes_lem, get_record_lem, clear_lem,
}

pub data Call : Type 0 where
  enters : String → Now → Call
  enters_under : String → Option ℕ → Now → Call
  enters_unnamed : Option ℕ → Now → Call
  sets : ℕ → ExitMessages → Call
  logs : EventKind → String → Fields → Now → Call
  exits : ℕ → Outcome → Now → Call
  trims_records trims_scopes asks_record : ℕ → Call
  clears : Call

module _ {W : Type 0} (sink : Writer W) where
  -- A call, for its effect.
  unfoldable pub step : Journal W → Call → Run (Journal W)
  step j (enters name now) = do (j', _) ← enter_scope sink j name now; ok j'
  step j (enters_under name parent now) = do
    (j', _) ← enter_scope_with_parent sink j name parent now
    ok j'
  step j (enters_unnamed parent now) = do (j', _) ← enter_scope_unnamed sink j parent now; ok j'
  step j (sets id msgs) = do (j', _) ← set_scope_exit_messages sink j id msgs; ok j'
  step j (logs kind name fields now) = do (j', _) ← record_event sink j kind name fields now; ok j'
  step j (exits id outcome now) = do (j', _) ← exit_scope sink j id outcome now; ok j'
  step j (trims_records max) = trim_records j max
  step j (trims_scopes max) = trim_scopes j max
  step j (asks_record id) = do (j', _) ← get_record j id; ok j'
  step j clears = ok (clear j)

  unfoldable pub run : Journal W → List Call → Run (Journal W)
  run j [] = ok j
  run j (c ∷ calls) = do j' ← step j c; run j' calls

  step_lem :
      (j : Journal W) (c : Call) → IsValid j → Room sink 1 j → Returns (step j c) (Keeps sink j)
  unfolding step
  step_lem j (enters name now) v room =
      let (a, run, w) = enter_scope_lem sink j name now v room in (a.0, rw run, w)
  step_lem j (enters_under name parent now) v room =
      let (a, run, w) = enter_scope_with_parent_lem sink j name parent now v room in
      (a.0, rw run, w)
  step_lem j (enters_unnamed parent now) v room =
      let (a, run, w) = enter_scope_unnamed_lem sink j parent now v room in (a.0, rw run, w)
  step_lem j (sets id msgs) v room =
      let (a, run, w) = messages_lem sink j id msgs v in (a.0, rw run, w.0)
  step_lem j (logs kind name fields now) v room =
      let (a, run, w) = record_event_lem sink j kind name fields now v room in (a.0, rw run, w)
  step_lem j (exits id outcome now) v room =
      let (a, run, w) = exit_scope_lem sink j id outcome now v room in (a.0, rw run, w)
  step_lem j (trims_records max) v room =
      let (k, run, w) = trim_records_lem sink j max v in (k, run, w.0)
  step_lem j (trims_scopes max) v room =
      let (k, run, w) = trim_scopes_lem sink j max v in (k, run, w.0)
  step_lem j (asks_record id) v room =
      let (a, run, w) = get_record_lem sink j id v in (a.0, rw run, w)
  step_lem j clears v room = (clear j, refl, clear_lem sink j v)

  run_lem :
      (j : Journal W) (calls : List Call)
      → IsValid j
      → Room sink (length calls) j
      → Returns (run j calls) IsValid
  unfolding run
  run_lem j [] v room = (j, refl, v)
  run_lem j (c ∷ calls) v room =
      let (k, now, (valid, scopes, records)) =
        step_lem j c v (omega (arith, room.0), omega (arith, room.1)) in
      let (l, later, w) =
        run_lem k calls valid (omega (arith, scopes, room.0), omega (arith, records, room.1)) in
      (l, rw now later, w)

  -- From a new journal on, any sequence of fewer than `usize::MAX` calls that enter, record, exit,
  -- set messages, trim, look up and clear ends without a panic, in a journal whose identifiers
  -- ascend below their counters, so that no two retained records and no two retained scopes share one.
  pub run-IsValid :
      (run_id : String) (calls : List Call)
      → length calls < usize_max
      → Returns (run (new run_id) calls) IsValid
  unfolding new
  run-IsValid run_id calls few =
      run_lem (new run_id) calls (new-IsValid run_id) (omega (arith, few), omega (arith, few))
