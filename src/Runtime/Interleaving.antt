-- ===== src/Runtime/Interleaving.antt =====
-- Threads that use the runtime at the same time (src/runtime/mod.rs): the sections of their calls, one
-- after the other under the locks, in any order.
use eventline.Prelude.{
  ℕ, suc, ◌+◌, ◌≤◌, ◌≡◌, String, refl, ◌∙◌, false, ◌∷◌, arith, Run, ok, ◌>>=◌, Returns, length,
}
use eventline.Core.{EventKind, Outcome, Fields}
use eventline.Writer.{Writer}
use eventline.Journal.{Now}
use eventline.Journal.Valid.{IsValid}
use eventline.Runtime.{Runtime}
use eventline.Runtime.Sections.{Gap, Others, some_drops, run_gap, Room, Moved, Moved-then}
use eventline.Runtime.Gaps.{gap_lem}
use eventline.Runtime.Between.{
  emit_between, enter_between, exit_between, Worked, emit_between_lem, enter_between_lem,
  exit_between_lem,
}

-- What a thread does with its scopes properly nested, and what other threads do between its sections and
-- between its calls.
pub data Work : Type 0 where
  done : Work
  emits : EventKind → String → Fields → Now → Gap → Gap → Gap → Work → Work
  scoped : String → Now → Gap → Work → Outcome → Now → Gap → Work → Work
  elsewhere : Gap → Work → Work

-- The sections that may take an identifier, at most.
unfoldable pub sections_in : Work → ℕ
sections_in done = 0
sections_in (emits kind message fields now counting trimming writing rest) =
    suc (length counting + (length trimming + (length writing + sections_in rest)))
sections_in (scoped name now entering body outcome later leaving rest) =
    suc (length entering + (sections_in body + suc (length leaving + sections_in rest)))
sections_in (elsewhere gap rest) = length gap + sections_in rest

-- What is in between is of other threads, and while this thread has entered a scope and not written its
-- metadata, no other one clears or trims.
unfoldable pub Avoids : ℕ → Work → Type 0
Avoids t done = 0 ≤ 0
Avoids t (emits kind message fields now counting trimming writing rest) =
    Others t counting × Others t trimming × Others t writing × Avoids t rest
Avoids t (scoped name now entering body outcome later leaving rest) =
    Others t entering
    × (some_drops entering ≡ false)
    × Avoids t body
    × Others t leaving
    × Avoids t rest
Avoids t (elsewhere gap rest) = Others t gap × Avoids t rest

module _ {W : Type 0} (sink : Writer W) where
  unfoldable pub run_work : Runtime W → ℕ → Work → Run (Runtime W)
  run_work rt t done = ok rt
  run_work rt t (emits kind message fields now counting trimming writing rest) = do
    rt' ← emit_between sink rt t kind message fields now counting trimming writing
    run_work rt' t rest
  run_work rt t (scoped name now entering body outcome later leaving rest) = do
    (inner, id) ← enter_between sink rt t name now entering
    after ← run_work inner t body
    left ← exit_between sink after t id outcome later leaving
    run_work left t rest
  run_work rt t (elsewhere gap rest) = do rt' ← run_gap sink rt gap; run_work rt' t rest

  -- The four parts of a scoped piece of work, one after the other.
  run_scoped :
      (rt inner after left last : Runtime W) (t : ℕ) (name : String) (now : Now) (entering : Gap)
      (body : Work) (outcome : Outcome) (later : Now) (leaving : Gap) (rest : Work) (id : ℕ)
      → enter_between sink rt t name now entering ≡ ok (inner, id)
      → run_work inner t body ≡ ok after
      → exit_between sink after t id outcome later leaving ≡ ok left
      → run_work left t rest ≡ ok last
      → run_work rt t (scoped name now entering body outcome later leaving rest) ≡ ok last
  unfolding run_work
  run_scoped rt inner after left last t name now entering body outcome later leaving rest id entered
        run exited more =
      rw (entered, ◌>>=◌, run, exited) more

  -- From a valid journal that does not run out of identifiers, whatever a thread does with its scopes
  -- properly nested returns, keeps the journal valid, and restores the scope stack of the thread. Other
  -- threads may do any sections of any calls between the calls of the thread and between the sections of one
  -- of its calls: enter, exit any scope, emit, set messages, flush, trim and clear. Only between the entering
  -- of a scope in the journal and the writing of its metadata do they neither trim nor clear.
  pub run_work-Worked :
      (rt : Runtime W) (t : ℕ) (work : Work)
      → Avoids t work
      → IsValid rt.journal
      → Room sink (sections_in work) rt
      → Returns (run_work rt t work) (Worked sink t (sections_in work) rt)
  unfolding run_work sections_in Avoids
  run_work-Worked rt t done apart v room = (
    rt,
    refl,
    record { valid = v; scope_ids = omega arith; record_ids = omega arith; stack = refl },
  )
  run_work-Worked rt t (emits kind message fields now counting trimming writing rest) apart v room =
      let (others, others', others'', apart') = apart in
      let (rt', run, w) =
        emit_between_lem sink rt t kind message fields now counting trimming writing others others'
          others'' v (omega (arith, room.0), omega (arith, room.1)) in
      let (rt'', run', x) =
        run_work-Worked rt' t rest apart' w.valid
          (omega (arith, room.0, w.scope_ids), omega (arith, room.1, w.record_ids)) in
      (
        rt'',
        rw (run, ◌>>=◌) run',
        Moved-then sink t (suc (length counting + (length trimming + length writing)))
            (sections_in rest) _ (rt.stacks t) rt rt' rt'' w x (omega arith),
      )
  run_work-Worked rt t (elsewhere gap rest) apart v room =
      let (rt', run, (w, _)) =
        gap_lem sink rt t gap apart.0 v (omega (arith, room.0), omega (arith, room.1)) in
      let (rt'', run', x) =
        run_work-Worked rt' t rest apart.1 w.valid
          (omega (arith, room.0, w.scope_ids), omega (arith, room.1, w.record_ids)) in
      (
        rt'',
        rw (run, ◌>>=◌) run',
        Moved-then sink t (length gap) (sections_in rest) _ (rt.stacks t) rt rt' rt'' w x
            (omega arith),
      )
  run_work-Worked rt t (scoped name now entering body outcome later leaving rest) apart v room =
      let (others, calm, apart_body, others', apart_rest) = apart in
      let ((inner, id), run, w) =
        enter_between_lem sink rt t name now entering others calm v
          (omega (arith, room.0), omega (arith, room.1)) in
      let (after, run', x) =
        run_work-Worked inner t body apart_body w.valid
          (omega (arith, room.0, w.scope_ids), omega (arith, room.1, w.record_ids)) in
      let (left, run'', y) =
        exit_between_lem sink after t id outcome later leaving (rt.stacks t) others' x.valid
          (
            omega (arith, room.0, w.scope_ids, x.scope_ids),
            omega (arith, room.1, w.record_ids, x.record_ids),
          )
          (x.stack ∙ w.stack) in
      let (last, run3, z) = run_work-Worked left t rest apart_rest y.valid (
        omega (arith, room.0, w.scope_ids, x.scope_ids, y.scope_ids),
        omega (arith, room.1, w.record_ids, x.record_ids, y.record_ids),
      ) in
      let inside : Moved sink t (suc (length entering) + sections_in body) (id ∷ rt.stacks t) rt
          after =
        Moved-then sink t (suc (length entering)) (sections_in body) _ (id ∷ rt.stacks t) rt inner
          after w x (omega arith) in
      let before : Worked sink t (suc (length entering) + sections_in body + suc (length leaving))
          rt left =
        record {
          valid = y.valid;
          scope_ids = omega (arith, inside.scope_ids, y.scope_ids);
          record_ids = omega (arith, inside.record_ids, y.record_ids);
          stack = y.stack;
        } in
      (
        last,
        run_scoped rt inner after left last t name now entering body outcome later leaving rest id
            run run' run'' run3,
        Moved-then sink t (suc (length entering) + sections_in body + suc (length leaving))
            (sections_in rest) _ (rt.stacks t) rt left last before z (omega arith),
      )
