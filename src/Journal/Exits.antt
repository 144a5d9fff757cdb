-- ===== src/Journal/Exits.antt =====
-- Exiting a scope (src/journal/mod.rs) keeps a journal valid, does not panic, and gives one record where the
-- scope was still open.
use eventline.Prelude.{
  ℕ, ◌+◌, ◌≤◌, ◌<◌, ◌≡◌, refl, ap, ◌∙◌, Option, none, some, List, [], ◌∷◌, ◌++◌, inl, inr, arith,
  ◌>>=◌, Returns, usize_max, subst, Option-cases, Bool-cases,
}
use eventline.Core.{Outcome, Record, Scope}
use eventline.Buffer.Scopes.{BufferedScope}
use eventline.Writer.{Writer}
use eventline.Buffer.Scopes.{live, is_closed}
use eventline.Buffer.Scopes.Exit.{exited}
use eventline.Buffer.Scopes.Update.{find_scope, modify_first}
use eventline.Buffer.Scopes.Closing.{vector_finalize, finalize_scope_exit_at_lem}
use eventline.Journal.{Journal, Now, next_id, leave, exit_record, close_with, exit_scope_no_write}
use eventline.Journal.Ids.{Ascends-upper}
use eventline.Journal.Valid.{IsValid, scope_ids}
use eventline.Journal.Entries.{push_record}

pub scope_ids-modify_first :
    (id : ℕ) (f : BufferedScope → BufferedScope) (bs : List BufferedScope)
    → ((b : BufferedScope) → (f b).scope.id ≡ b.scope.id)
    → scope_ids (modify_first id f bs) ≡ scope_ids bs
unfolding modify_first
scope_ids-modify_first id f [] keeps = refl
scope_ids-modify_first id f (b ∷ bs) keeps =
    ground (arith, keeps b, scope_ids-modify_first id f bs keeps)

pub scope_ids-finalize :
    (bs : List BufferedScope) (id millis at : ℕ)
    → scope_ids (vector_finalize bs id millis at).0 ≡ scope_ids bs
unfolding vector_finalize exited
scope_ids-finalize bs id millis at =
    let same = scope_ids-modify_first id (exited millis at) bs (λ b. refl) in
    elim (Option-cases (find_scope id bs)) [
      | inl e ↦ rw (e, vector_finalize)
      | inr (b, e) ↦ elim (Bool-cases (is_closed b)) [
        | inl shut ↦ rw (e, vector_finalize, shut)
        | inr still ↦ rw (e, vector_finalize, still) same
      ]
    ]

-- The outcome of an exit: nothing for a scope that is unknown or closed; otherwise one record at
-- the end, and the current scope is left if it is the one.
abbrev pub Exits :
    {W : Type 0}
    → Journal W
    → ℕ
    → Outcome
    → Now
    → Journal W
    → Option (Record × Scope)
    → Option (Scope × ℕ)
    → Type 0
Exits j scope_id outcome now j' payload none =
    (payload ≡ none) × (j'.buffer.records ≡ j.buffer.records) × (j'.current_scope ≡ j.current_scope)
Exits j scope_id outcome now j' payload (some (scope, elapsed)) =
    let entry = exit_record j.next_record_id scope_id outcome elapsed now in
    (payload ≡ some (entry, scope))
    × (j'.buffer.records.entries ≡ j.buffer.records.entries ++ entry ∷ [])
    × (j'.current_scope ≡ leave j.current_scope scope_id scope.parent)

module _ {W : Type 0} (sink : Writer W) where
  abbrev pub ExitsScope :
      Journal W → ℕ → Outcome → Now → Journal W × ℕ × Option (Record × Scope) → Type 0
  ExitsScope j scope_id outcome now (j', id, payload) =
      let after = vector_finalize (live j.buffer.scopes.entries) scope_id now.millis now.instant in
      IsValid j'
      × (id ≡ j.next_record_id)
      × (j'.next_record_id ≡ id + 1)
      × (j'.next_scope_id ≡ j.next_scope_id)
      × (live j'.buffer.scopes.entries ≡ after.0)
      × Exits j scope_id outcome now j' payload after.1

  close_with_lem :
      (j : Journal W) (scope_id : ℕ) (outcome : Outcome) (now : Now) (closed : Option (Scope × ℕ))
      → IsValid j
      → j.next_record_id < usize_max
      → let j' = record j { next_record_id = next_id j.next_record_id } in
        Returns
          (close_with sink j' j.next_record_id scope_id outcome now closed)
          λ (k, id, payload).
            IsValid k
            × (id ≡ j.next_record_id)
            × (k.next_record_id ≡ id + 1)
            × (k.next_scope_id ≡ j.next_scope_id)
            × (k.buffer.scopes ≡ j.buffer.scopes)
            × Exits j scope_id outcome now k payload closed
  unfolding close_with
  close_with_lem j scope_id outcome now none v room =
      let next : next_id j.next_record_id ≡ j.next_record_id + 1 = omega arith in
      let upper : j.next_record_id ≤ next_id j.next_record_id = omega arith in
      (
        (record j { next_record_id = next_id j.next_record_id }, j.next_record_id, none),
        refl,
        (
          record {
            records_sound = v.records_sound;
            scopes_sound = v.scopes_sound;
            records_ascend = Ascends-upper 0 _ _ _ upper v.records_ascend;
            scopes_ascend = v.scopes_ascend;
            records_few = omega (arith, v.records_few);
            slots_few = v.slots_few;
          },
          refl,
          next,
          refl,
          refl,
          (refl, refl, refl),
        ),
      )
  close_with_lem j scope_id outcome now (some (scope, elapsed)) v room =
      let id = j.next_record_id in
      let entry = exit_record id scope_id outcome elapsed now in
      let (records, pushed, (valid, same)) =
        push_record sink j entry v room (unfold exit_record in refl) in
      let left = leave j.current_scope scope_id scope.parent in
      let k = record j {
        next_record_id = next_id id;
        buffer = record (j.buffer) { records = records };
        current_scope = left;
      } in
      (
        (k, id, some (entry, scope)),
        rw pushed,
        (
          record {
            records_sound = valid.records_sound;
            scopes_sound = valid.scopes_sound;
            records_ascend = valid.records_ascend;
            scopes_ascend = valid.scopes_ascend;
            records_few = valid.records_few;
            slots_few = valid.slots_few;
          },
          refl,
          omega arith,
          refl,
          refl,
          (refl, same, refl),
        ),
      )

  -- From a valid journal with a record identifier left, `exit_scope_no_write` returns a valid journal
  -- and takes one record identifier. A scope that is unknown or closed gives nothing: records, current
  -- scope and scopes stay. An open one is closed, one exit record with its duration goes to the end,
  -- and the current scope becomes its parent exactly where it was the current one.
  pub exit_scope_no_write_lem :
      (j : Journal W) (scope_id : ℕ) (outcome : Outcome) (now : Now)
      → IsValid j
      → j.next_record_id < usize_max
      → Returns
          (exit_scope_no_write sink j scope_id outcome now)
          (ExitsScope j scope_id outcome now)
  unfolding exit_scope_no_write
  exit_scope_no_write_lem j scope_id outcome now v room =
      let bs = live j.buffer.scopes.entries in
      let ((scopes, closed), run, (sound, size, same)) =
        finalize_scope_exit_at_lem j.buffer.scopes scope_id now.millis now.instant v.scopes_sound in
      let shown : live scopes.entries ≡ (vector_finalize bs scope_id now.millis now.instant).0 =
        ap (λ p. p.0) same in
      let ids : scope_ids (live scopes.entries) ≡ scope_ids bs =
        ap scope_ids shown ∙ scope_ids-finalize bs scope_id now.millis now.instant in
      let j' = record j { buffer = record (j.buffer) { scopes = scopes } } in
      let valid : IsValid j' = record {
        records_sound = v.records_sound;
        scopes_sound = sound;
        records_ascend = v.records_ascend;
        scopes_ascend = rw ids v.scopes_ascend;
        records_few = v.records_few;
        slots_few = omega (arith, size, v.slots_few);
      } in
      let ((k, id, payload), run', (valid', fresh, next, kept, left, outcome')) =
        close_with_lem j' scope_id outcome now closed valid room in
      (
        (k, id, payload),
        rw (run, ◌>>=◌) run',
        (
          valid',
          fresh,
          next,
          kept,
          ap (λ s. live s.entries) left ∙ shown,
          subst (Exits j scope_id outcome now k payload) (ap (λ p. p.1) same) outcome',
        ),
      )
