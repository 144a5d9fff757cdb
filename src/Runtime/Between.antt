-- ===== src/Runtime/Between.antt =====
-- The calls of a thread (src/runtime/mod.rs) with sections of other threads between their own.
use eventline.Prelude.{
  ℕ, suc, ◌+◌, ◌≡◌, String, refl, ap, ◌∙◌, subst, false, List, [], ◌∷◌, ◌++◌, inl, inr, arith, ◌==◌,
  ◌%◌, Run, ok, Bool-cases, if◌then◌else◌, ◌>>=◌, Returns, length,
}
use mathlib.Core.List.{append_assoc}
use eventline.Core.{EventKind, Outcome, Fields}
use eventline.Writer.{Writer}
use eventline.Buffer.Scopes.{live}
use eventline.Journal.{Now}
use eventline.Journal.Valid.{IsValid}
use eventline.Runtime.{
  Runtime, trim_interval, with_stack, remove_scope_from_stack, enter_journal, write_entered,
  exit_journal, write_left, enter_scope, exit_scope, emit, record_emitted, count_emitted, trim_due,
  write_emitted,
}
use eventline.Runtime.Threads.{
  Trimmed, kept_ids, enter_journal_lem, write_entered_lem, exit_journal_lem, write_left_lem,
  record_emitted_lem, trim_due_lem,
}
use eventline.Runtime.Sections.{Gap, Others, some_drops, run_gap, Room, Moved}
use eventline.Runtime.Gaps.{gap_lem, find_known}

module _ {W : Type 0} (sink : Writer W) where
  -- The sections of `emit`, `enter_scope` and `exit_scope`, with those of other threads in between.
  unfoldable pub emit_between :
      Runtime W → ℕ → EventKind → String → Fields → Now → Gap → Gap → Gap → Run (Runtime W)
  emit_between rt t kind message fields now counting trimming writing = do
    (recorded, r, scope) ← record_emitted sink rt t kind message fields now
    a ← run_gap sink recorded counting
    let (counted, count) = count_emitted sink a
    b ← run_gap sink counted trimming
    trimmed ← trim_due sink b count
    c ← run_gap sink trimmed writing
    ok (write_emitted sink c r scope)

  unfoldable pub enter_between : Runtime W → ℕ → String → Now → Gap → Run (Runtime W × ℕ)
  enter_between rt t name now entering = do
    (rt', id) ← enter_journal sink rt t name now
    a ← run_gap sink rt' entering
    b ← write_entered sink a id
    ok (b, id)

  unfoldable pub exit_between : Runtime W → ℕ → ℕ → Outcome → Now → Gap → Run (Runtime W)
  exit_between rt t id outcome now leaving = do
    (rt', payload) ← exit_journal sink rt t id outcome now
    a ← run_gap sink rt' leaving
    ok (write_left sink a payload)

  -- Without other threads, these are the calls.
  emit_between-alone :
      (rt : Runtime W) (t : ℕ) (kind : EventKind) (message : String) (fields : Fields) (now : Now)
      → emit_between rt t kind message fields now [] [] [] ≡ emit sink rt t kind message fields now
  unfolding emit_between emit run_gap
  emit_between-alone rt t kind message fields now = refl

  enter_between-alone :
      (rt : Runtime W) (t : ℕ) (name : String) (now : Now)
      → enter_between rt t name now [] ≡ enter_scope sink rt t name now
  unfolding enter_between enter_scope run_gap
  enter_between-alone rt t name now = refl

  exit_between-alone :
      (rt : Runtime W) (t id : ℕ) (outcome : Outcome) (now : Now)
      → exit_between rt t id outcome now [] ≡ exit_scope sink rt t id outcome now
  unfolding exit_between exit_scope run_gap
  exit_between-alone rt t id outcome now = refl

  own_stack : (stacks : ℕ → List ℕ) (t : ℕ) (ids : List ℕ) → with_stack stacks t ids t ≡ ids
  own_stack stacks t ids = ground arith

  -- Leaving the innermost scope takes it off the stack.
  leave_innermost : (id : ℕ) (ids : List ℕ) → remove_scope_from_stack id (id ∷ ids) ≡ ids
  unfolding remove_scope_from_stack
  leave_innermost id ids = ground arith

  -- What work of a thread leaves: its stack as it was.
  abbrev pub Worked : ℕ → ℕ → Runtime W → Runtime W → Type 0
  Worked t n rt rt' = Moved sink t n (rt.stacks t) rt rt'

  pub enter_between_lem :
      (rt : Runtime W) (t : ℕ) (name : String) (now : Now) (entering : Gap)
      → Others t entering
      → some_drops entering ≡ false
      → IsValid rt.journal
      → Room sink (suc (length entering)) rt
      → Returns
          (enter_between rt t name now entering)
          λ (rt', id). Moved sink t (suc (length entering)) (id ∷ rt.stacks t) rt rt'
  unfolding enter_between
  enter_between_lem rt t name now entering others calm v room =
      let ((rt', id), run, (w, ids)) =
        enter_journal_lem sink rt t name now v (omega (arith, room.0)) in
      let (a, run', (x, grows)) =
        gap_lem sink rt' t entering others w.valid
          (omega (arith, room.0, w.scope_ids), omega (arith, room.1, w.record_ids)) in
      let (news, grown) = grows calm in
      let (b, found) =
        find_known (live a.journal.buffer.scopes.entries) (kept_ids sink rt) news id
          (grown ∙ ap (λ xs. xs ++ news) ids ∙ append_assoc (kept_ids sink rt) (id ∷ []) news) in
      let (written, wrote) = write_entered_lem sink a id b x.valid.scopes_sound found in
      (
        (record a { writer = written }, id),
        rw (run, ◌>>=◌, run', wrote),
        record {
          valid = x.valid;
          scope_ids = omega (arith, w.scope_ids, x.scope_ids);
          record_ids = omega (arith, w.record_ids, x.record_ids);
          stack = x.stack ∙ ap (λ f. f t) w.stacks ∙ own_stack rt.stacks t (id ∷ rt.stacks t);
        },
      )

  pub exit_between_lem :
      (rt : Runtime W) (t id : ℕ) (outcome : Outcome) (now : Now) (leaving : Gap) (ids : List ℕ)
      → Others t leaving
      → IsValid rt.journal
      → Room sink (suc (length leaving)) rt
      → rt.stacks t ≡ id ∷ ids
      → Returns
          (exit_between rt t id outcome now leaving)
          (Moved sink t (suc (length leaving)) ids rt)
  unfolding exit_between
  exit_between_lem rt t id outcome now leaving ids others v room inside =
      let ((rt', payload), run, (w, _)) =
        exit_journal_lem sink rt t id outcome now v (omega (arith, room.1)) in
      let (a, run', (x, _)) =
        gap_lem sink rt' t leaving others w.valid
          (omega (arith, room.0, w.scope_ids), omega (arith, room.1, w.record_ids)) in
      let (written, wrote) = write_left_lem sink a payload in
      (
        record a { writer = written },
        rw (run, ◌>>=◌, run', wrote),
        record {
          valid = x.valid;
          scope_ids = omega (arith, w.scope_ids, x.scope_ids);
          record_ids = omega (arith, w.record_ids, x.record_ids);
          stack =
              x.stack
              ∙ ap (λ f. f t) w.stacks
              ∙ own_stack rt.stacks t (remove_scope_from_stack id (rt.stacks t))
              ∙ ap (remove_scope_from_stack id) inside
              ∙ leave_innermost id ids;
        },
      )

  -- The trim pass where it is due takes no identifier and leaves the stacks alone.
  trimmed_lem :
      (rt : Runtime W) (t count : ℕ)
      → IsValid rt.journal
      → Returns (trim_due sink rt count) (Worked t 0 rt)
  trimmed_lem rt t count v =
      let (rt', run, w) = trim_due_lem sink rt count v in
      elim (Bool-cases (count % trim_interval == 0)) [
        | inl due ↦
            let (valid, scopes, records, stacks, _, _, _) : Trimmed sink rt rt' =
              subst (λ x. if x then Trimmed sink rt rt' else (rt' ≡ rt)) due w in
            (
              rt',
              run,
              record {
                valid = valid;
                scope_ids = omega (arith, scopes);
                record_ids = omega (arith, records);
                stack = ap (λ f. f t) stacks;
              },
            )
        | inr not_due ↦
            let same : rt' ≡ rt =
              subst (λ x. if x then Trimmed sink rt rt' else (rt' ≡ rt)) not_due w in
            (
              rt,
              run ∙ ap ok same,
              record { valid = v; scope_ids = omega arith; record_ids = omega arith; stack = refl },
            )
      ]

  pub emit_between_lem :
      (rt : Runtime W) (t : ℕ) (kind : EventKind) (message : String) (fields : Fields) (now : Now)
      (counting trimming writing : Gap)
      → Others t counting
      → Others t trimming
      → Others t writing
      → IsValid rt.journal
      → Room sink (suc (length counting + (length trimming + length writing))) rt
      → Returns
          (emit_between rt t kind message fields now counting trimming writing)
          (Worked t (suc (length counting + (length trimming + length writing))) rt)
  unfolding emit_between count_emitted write_emitted
  emit_between_lem rt t kind message fields now counting trimming writing others others' others'' v
        room =
      let ((recorded, r, scope), run, (w, _, _, _, _)) =
        record_emitted_lem sink rt t kind message fields now v (omega (arith, room.1)) in
      let (a, run', (x, _)) =
        gap_lem sink recorded t counting others w.valid
          (omega (arith, room.0, w.scope_ids), omega (arith, room.1, w.record_ids)) in
      let counted = (count_emitted sink a).0 in
      let (b, run'', (y, _)) = gap_lem sink counted t trimming others' x.valid (
        omega (arith, room.0, w.scope_ids, x.scope_ids),
        omega (arith, room.1, w.record_ids, x.record_ids),
      ) in
      let (trimmed, run3, z) = trimmed_lem b t a.emit_count y.valid in
      let (c, run4, (u, _)) = gap_lem sink trimmed t writing others'' z.valid (
        omega (arith, room.0, w.scope_ids, x.scope_ids, y.scope_ids, z.scope_ids),
        omega (arith, room.1, w.record_ids, x.record_ids, y.record_ids, z.record_ids),
      ) in
      (
        write_emitted sink c r scope,
        rw (run, ◌>>=◌, run', run'', run3, run4),
        record {
          valid = u.valid;
          scope_ids =
              omega (arith, w.scope_ids, x.scope_ids, y.scope_ids, z.scope_ids, u.scope_ids);
          record_ids =
              omega (arith, w.record_ids, x.record_ids, y.record_ids, z.record_ids, u.record_ids);
          stack = u.stack ∙ z.stack ∙ y.stack ∙ x.stack ∙ ap (λ f. f t) w.stacks;
        },
      )
