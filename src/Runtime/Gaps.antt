-- ===== src/Runtime/Gaps.antt =====
-- What the sections of other threads leave (src/runtime/mod.rs).
use eventline.Prelude.{
  ℕ, ◌≡◌, refl, sym, ap, ◌∙◌, false, Option, none, some, List, [], ◌∷◌, ◌++◌, inl, inr, arith, ◌==◌,
  Run, ok, panic, ◌>>=◌, Returns, length, Bool-cases, unwrap,
}
use mathlib.Core.List.{append-nil, append_assoc}
use eventline.Core.{Scope}
use eventline.Writer.{Writer}
use eventline.Buffer.Scopes.{Scopes, BufferedScope, live}
use eventline.Buffer.Scopes.Update.{find_scope}
use eventline.Journal.Calls
use eventline.Journal.Valid.{IsValid, scope_ids}
use eventline.Runtime.{
  Runtime, with_stack, write_entered, count_emitted, write_emitted, flush, clear_journal, reset,
}
use eventline.Runtime.Threads.{
  Stepped, Grown, kept_ids, enter_journal_lem, exit_journal_lem, write_left_lem,
  set_scope_exit_messages_lem, clear_journal-Stepped, record_emitted_lem, trim_pass_lem,
}
use eventline.Runtime.Sections.{
  Act, enters, writes_entered, exits, writes_left, emits, counts, trims, writes_emitted, sets,
  flushes, clears, resets, Gap, Others, drops_scopes, some_drops, survived, act, run_gap, Room,
  Moved,
}

module _ {W : Type 0} (sink : Writer W) where
  -- Only the writer or the counter is another.
  Same : Runtime W → Runtime W → Type 0
  Same rt rt' = (rt'.journal ≡ rt.journal) × (rt'.stacks ≡ rt.stacks)

  Same-Stepped :
      (rt rt' : Runtime W)
      → IsValid rt.journal
      → Same rt rt'
      → Stepped sink rt rt.stacks rt' × Grown sink rt rt'
  unfolding Same
  Same-Stepped rt rt' v (journal, stacks) =
      let kept = λ (x : List ℕ). append-nil x in
      (
        record {
          valid = rw journal v;
          scope_ids = omega (arith, ap (λ j. j.next_scope_id) journal);
          record_ids = omega (arith, ap (λ j. j.next_record_id) journal);
          stacks = stacks;
        },
        (
          [],
          ap (λ j. kept_ids sink (record rt { journal = j })) journal
              ∙ sym (append-nil (kept_ids sink rt)),
        ),
      )

  written-Same :
      (rt : Runtime W) (r : Run (Option Scope))
      → Same rt (
          survived rt (do
            found ← r
            s ← unwrap found
            ok (record rt { writer = (sink.write_scope s rt.writer).0 })))
  unfolding Same
  written-Same rt panic = (refl, refl)
  written-Same rt (ok none) = (refl, refl)
  written-Same rt (ok (some s)) = (refl, refl)

  survived-Same : (rt : Runtime W) (id : ℕ) → Same rt (survived rt (write_entered sink rt id))
  unfolding Same write_entered
  survived-Same rt id = elim (Bool-cases (sink.wants_scope_metadata rt.writer)) [
    | inl wants ↦ rw wants (written-Same rt (Calls.get_scope rt.journal id))
    | inr no_wants ↦ rw no_wants (refl, refl)
  ]

  grows : (rt rt' : Runtime W) → kept_ids sink rt' ≡ kept_ids sink rt → Grown sink rt rt'
  grows rt rt' same = ([], same ∙ sym (append-nil (kept_ids sink rt)))

  -- A section returns, leaves the stacks of the other threads alone, and keeps every scope unless it trims or
  -- clears.
  Acts : Runtime W → ℕ → Act → Runtime W → Type 0
  Acts rt u a rt' =
      (shape : ℕ → List ℕ) × Stepped sink rt shape rt'
      × ((t : ℕ) → (u == t) ≡ false → shape t ≡ rt.stacks t)
      × (drops_scopes a ≡ false → Grown sink rt rt')

  -- A section that changes only the writer or the counter.
  quiet :
      (rt rt' : Runtime W) (u : ℕ) (a : Act) → IsValid rt.journal → Same rt rt' → Acts rt u a rt'
  unfolding Acts
  quiet rt rt' u a v same =
      let (w, grown) = Same-Stepped rt rt' v same in
      (rt.stacks, w, (λ t apart. refl), (λ keeps. grown))

  act_lem :
      (rt : Runtime W) (u : ℕ) (a : Act)
      → IsValid rt.journal
      → Room sink 1 rt
      → Returns (act sink rt u a) (Acts rt u a)
  unfolding act Acts Same flush count_emitted write_emitted reset
  act_lem rt u (enters name now) v room =
      let ((rt', id), run, (w, ids)) =
        enter_journal_lem sink rt u name now v (omega (arith, room.0)) in
      (rt', rw run, (_, w, (λ t apart. rw apart), (λ keeps. (id ∷ [], ids))))
  act_lem rt u (writes_entered id) v room = (
    survived rt (write_entered sink rt id),
    refl,
    quiet rt _ u (writes_entered id) v (survived-Same rt id),
  )
  act_lem rt u (exits id outcome now) v room =
      let ((rt', payload), run, (w, ids)) =
        exit_journal_lem sink rt u id outcome now v (omega (arith, room.1)) in
      (rt', rw run, (_, w, (λ t apart. rw apart), (λ keeps. grows rt rt' ids)))
  act_lem rt u (writes_left payload) v room =
      let (w, wrote) = write_left_lem sink rt payload in
      (
        record rt { writer = w },
        ap ok wrote,
        quiet rt (record rt { writer = w }) u (writes_left payload) v (refl, refl),
      )
  act_lem rt u (emits kind message fields now) v room =
      let ((rt', _, _), run, (w, _, _, _, scopes)) =
        record_emitted_lem sink rt u kind message fields now v (omega (arith, room.1)) in
      (
        rt',
        rw run,
        (
          _,
          w,
          (λ t apart. refl),
          (λ keeps. grows rt rt' (ap (λ (s : Scopes). scope_ids (live s.entries)) scopes)),
        ),
      )
  act_lem rt u counts v room =
      ((count_emitted sink rt).0, refl, quiet rt (count_emitted sink rt).0 u counts v (refl, refl))
  act_lem rt u trims v room =
      let (rt', run, (w, scopes, records, stacks, _, _, _)) = trim_pass_lem sink rt v in
      (
        rt',
        run,
        (
          rt.stacks,
          record {
            valid = w;
            scope_ids = omega (arith, scopes);
            record_ids = omega (arith, records);
            stacks = stacks;
          },
          (λ t apart. refl),
          (λ keeps. absurd (ground (arith, keeps))),
        ),
      )
  act_lem rt u (writes_emitted r scope) v room = (
    write_emitted sink rt r scope,
    refl,
    quiet rt (write_emitted sink rt r scope) u (writes_emitted r scope) v (refl, refl),
  )
  act_lem rt u (sets id msgs) v room =
      let (rt', run, (w, ids)) = set_scope_exit_messages_lem sink rt id msgs v in
      (rt', run, (_, w, (λ t apart. refl), (λ keeps. grows rt rt' ids)))
  act_lem rt u flushes v room =
      ((flush sink rt).0, refl, quiet rt (flush sink rt).0 u flushes v (refl, refl))
  act_lem rt u clears v room = (
    clear_journal sink rt,
    refl,
    (
      _,
      clear_journal-Stepped sink rt v,
      (λ t apart. refl),
      (λ keeps. absurd (ground (arith, keeps))),
    ),
  )
  act_lem rt u resets v room = (
    reset sink rt u,
    refl,
    (
      with_stack rt.stacks u [],
      record { valid = v; scope_ids = omega arith; record_ids = omega arith; stacks = refl },
      (λ t apart. rw apart),
      (λ keeps. grows rt (reset sink rt u) refl),
    ),
  )

  pub gap_lem :
      (rt : Runtime W) (t : ℕ) (gap : Gap)
      → Others t gap
      → IsValid rt.journal
      → Room sink (length gap) rt
      → Returns (run_gap sink rt gap) λ rt'.
        Moved sink t (length gap) (rt.stacks t) rt rt'
        × (some_drops gap ≡ false → Grown sink rt rt')
  unfolding run_gap Others Acts
  gap_lem rt t [] others v room = (
    rt,
    refl,
    (
      record { valid = v; scope_ids = omega arith; record_ids = omega arith; stack = refl },
      λ keeps. grows rt rt refl,
    ),
  )
  gap_lem rt t ((u, a) ∷ gap) others v room =
      let (rt', run, (shape, w, apart, grows_first)) =
        act_lem rt u a v (omega (arith, room.0), omega (arith, room.1)) in
      let first : Moved sink t 1 (rt.stacks t) rt rt' = record {
        valid = w.valid;
        scope_ids = w.scope_ids;
        record_ids = w.record_ids;
        stack = ap (λ f. f t) w.stacks ∙ apart t others.0;
      } in
      let (rt'', run', (x, grows_rest)) =
        gap_lem rt' t gap others.1 w.valid
          (omega (arith, room.0, w.scope_ids), omega (arith, room.1, w.record_ids)) in
      (
        rt'',
        rw (run, ◌>>=◌) run',
        (
          record {
            valid = x.valid;
            scope_ids = omega (arith, w.scope_ids, x.scope_ids);
            record_ids = omega (arith, w.record_ids, x.record_ids);
            stack = x.stack ∙ first.stack;
          },
          λ keeps.
              let (ids, grown) = grows_first (ground (arith, keeps)) in
              let (more, grown') = grows_rest (ground (arith, keeps)) in
              (
                ids ++ more,
                grown' ∙ ap (λ xs. xs ++ more) grown ∙ append_assoc (kept_ids sink rt) ids more,
              ),
        ),
      )

-- A scope whose identifier is among those of the retained scopes is found.
pub find_known :
    (bs : List BufferedScope) (xs ys : List ℕ) (id : ℕ)
    → scope_ids bs ≡ xs ++ id ∷ ys
    → (b : BufferedScope) × (find_scope id bs ≡ some b)
find_known [] [] ys id e = cc
find_known [] (x ∷ xs) ys id e = cc
find_known (b ∷ bs) [] ys id e = (b, ground (arith, e))
find_known (b ∷ bs) (x ∷ xs) ys id e = elim (Bool-cases (b.scope.id == id)) [
  | inl here ↦ (b, rw here)
  | inr apart ↦ let (c, found) = find_known bs xs ys id (ground (arith, e)) in (c, rw apart found)
]
