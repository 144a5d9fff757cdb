-- ===== src/Runtime/Threads.antt =====
-- The sections of the calls on the runtime, on any thread, and `emit` as a whole (src/runtime/mod.rs).
use eventline.Prelude.{
  ℕ, ◌+◌, ◌-◌, ◌≤◌, ◌<◌, ◌%◌, ◌^◌, ◌≡◌, String, refl, ap, ◌∙◌, Option, none, some, List, [], ◌∷◌,
  ◌++◌, subst, inl, inr, arith, ◌==◌, if◌then◌else◌, ok, ◌>>=◌, Returns, usize_max, length, drop,
  Bool-cases,
}
use mathlib.Core.List.{map-append}
use eventline.Core.{EventKind, event, Outcome, Fields, ExitMessages, Record, Scope}
use eventline.Writer.{Writer}
use eventline.Buffer.Scopes.{Scopes, live, BufferedScope}
use eventline.Buffer.Scopes.Slots.{evict, closed_count}
use eventline.Buffer.Scopes.Exit
use eventline.Buffer.Scopes.Sound as ScopesSound
use eventline.Buffer.Scopes.Update.{find_scope}
use eventline.Journal
use eventline.Journal.{Journal, Now, fresh_scope}
use eventline.Journal.Calls
use eventline.Journal.Valid.{IsValid, scope_ids, open_scope_lem}
use eventline.Journal.Entries.{record_no_write_in_scope_lem}
use eventline.Journal.Exits.{exit_scope_no_write_lem, scope_ids-finalize}
use eventline.Journal.Steps.{messages_lem, trim_records_lem, trim_scopes_lem, clear_lem}
use eventline.Runtime.{
  Runtime, trim_interval, with_stack, top, remove_scope_from_stack, with_journal, on_thread,
  enter_journal, write_entered, set_scope_exit_messages, exit_journal, write_left, trim_pass,
  record_emitted, count_emitted, trim_due, write_emitted, emit, flush, clear_journal,
}
use eventline.Runtime.Levels.{Config}
use eventline.Runtime.Filtered.{noop_writer}

module _ {W : Type 0} (sink : Writer W) where
  -- What a call leaves: a valid journal whose counters went up by one at most, and the stacks.
  pub record Stepped (rt : Runtime W) (shape : ℕ → List ℕ) (rt' : Runtime W) : Type 0 where
    pub valid : IsValid rt'.journal
    pub scope_ids : rt'.journal.next_scope_id ≤ rt.journal.next_scope_id + 1
    pub record_ids : rt'.journal.next_record_id ≤ rt.journal.next_record_id + 1
    pub stacks : rt'.stacks ≡ shape

  -- The identifiers of the retained scopes.
  abbrev pub kept_ids : Runtime W → List ℕ
  kept_ids rt = scope_ids (live rt.journal.buffer.scopes.entries)

  -- No scope is gone.
  abbrev pub Grown : Runtime W → Runtime W → Type 0
  Grown rt rt' = (news : List ℕ) × (kept_ids rt' ≡ kept_ids rt ++ news)

  pub write_entered_lem :
      (rt : Runtime W) (id : ℕ) (b : BufferedScope)
      → ScopesSound.IsSound rt.journal.buffer.scopes
      → find_scope id (live rt.journal.buffer.scopes.entries) ≡ some b
      → (w : W) × (write_entered sink rt id ≡ ok (record rt { writer = w }))
  unfolding write_entered Calls.get_scope Exit.get_scope_by_id
  write_entered_lem rt id b v e = elim (Bool-cases (sink.wants_scope_metadata rt.writer)) [
    | inl wants ↦ (
      (sink.write_scope b.scope rt.writer).0,
      rw (wants, ScopesSound.get_lem rt.journal.buffer.scopes id v, ◌>>=◌, e),
    )
    | inr no_wants ↦ (rt.writer, rw no_wants)
  ]

  pub enter_journal_lem :
      (rt : Runtime W) (t : ℕ) (name : String) (now : Now)
      → IsValid rt.journal
      → rt.journal.next_scope_id < usize_max
      → Returns (enter_journal sink rt t name now) λ (rt', id).
        Stepped rt (with_stack rt.stacks t (id ∷ rt.stacks t)) rt'
        × (kept_ids rt' ≡ kept_ids rt ++ id ∷ [])
  unfolding enter_journal Journal.enter_scope_with_parent
  enter_journal_lem rt t name now v room =
      let parent = top (rt.stacks t) in
      let ((j, id), run, (valid, same_id, next, kept, current, same, records)) =
        open_scope_lem noop_writer rt.journal (some name) parent now v room in
      (
        (on_thread (with_journal rt j) t (id ∷ rt.stacks t), id),
        rw run,
        (
          record {
            valid = valid;
            scope_ids = omega (arith, next, same_id);
            record_ids = omega (arith, kept);
            stacks = refl;
          },
          ap scope_ids same
              ∙ map-append (λ x. x.scope.id) (live rt.journal.buffer.scopes.entries)
                  (fresh_scope id (some name) parent now ∷ []),
        ),
      )

  pub write_left_lem :
      (rt : Runtime W) (o : Option (Record × Scope))
      → (w : W) × (write_left sink rt o ≡ record rt { writer = w })
  unfolding write_left
  write_left_lem rt none = (rt.writer, refl)
  write_left_lem rt (some (r, s)) = ((sink.write_record r (some s) rt.writer).0, refl)

  pub exit_journal_lem :
      (rt : Runtime W) (t id : ℕ) (outcome : Outcome) (now : Now)
      → IsValid rt.journal
      → rt.journal.next_record_id < usize_max
      → Returns (exit_journal sink rt t id outcome now) λ (rt', payload).
        Stepped rt (with_stack rt.stacks t (remove_scope_from_stack id (rt.stacks t))) rt'
        × (kept_ids rt' ≡ kept_ids rt)
  unfolding exit_journal
  exit_journal_lem rt t id outcome now v room =
      let ((j, rid, payload), run, (valid, same_id, next, kept, shown, more)) =
        exit_scope_no_write_lem noop_writer rt.journal id outcome now v room in
      (
        (on_thread (with_journal rt j) t (remove_scope_from_stack id (rt.stacks t)), payload),
        rw run,
        (
          record {
            valid = valid;
            scope_ids = omega (arith, kept);
            record_ids = omega (arith, next, same_id);
            stacks = refl;
          },
          ap scope_ids shown
              ∙ scope_ids-finalize (live rt.journal.buffer.scopes.entries) id now.millis
                  now.instant,
        ),
      )

  -- A trim pass keeps the newest records, at most the configured number, and evicts the oldest closed
  -- scopes beyond that number.
  abbrev pub Trimmed : Runtime W → Runtime W → Type 0
  Trimmed rt rt' =
      let max = rt.config.max_journal_records in
      let xs = rt.journal.buffer.records.entries in
      let bs = live rt.journal.buffer.scopes.entries in
      IsValid rt'.journal
      × (rt'.journal.next_scope_id ≡ rt.journal.next_scope_id)
      × (rt'.journal.next_record_id ≡ rt.journal.next_record_id)
      × (rt'.stacks ≡ rt.stacks)
      × (rt'.emit_count ≡ rt.emit_count)
      × (rt'.journal.buffer.records.entries ≡ drop (length xs - max) xs)
      × (live rt'.journal.buffer.scopes.entries ≡ evict (closed_count bs - max) bs)

  pub trim_pass_lem :
      (rt : Runtime W) → IsValid rt.journal → Returns (trim_pass sink rt) (Trimmed rt)
  unfolding trim_pass evict
  trim_pass_lem rt v =
      let max = rt.config.max_journal_records in
      let (j, run, (w, left, scopes, records, same)) =
        trim_records_lem noop_writer rt.journal max v in
      let (k, run', (u, left', scopes', records', same')) = trim_scopes_lem noop_writer j max w.0 in
      (
        with_journal rt k,
        rw (run, ◌>>=◌, run'),
        (
          u.0,
          scopes' ∙ scopes,
          records' ∙ records,
          refl,
          refl,
          same' ∙ same,
          left' ∙ ap (λ bs. evict (closed_count bs - max) bs) left,
        ),
      )

  -- The entry that `emit` makes.
  abbrev pub emitted : Runtime W → ℕ → EventKind → String → Fields → Now → Record
  emitted rt t kind message fields now = record {
    id = rt.journal.next_record_id;
    scope = top (rt.stacks t);
    time_ns = now.nanos;
    kind = event kind message fields;
  }

  -- The records after `emit`: one more, and at every `trim_interval`-th call the oldest are dropped.
  abbrev pub kept_records : Runtime W → Record → List Record
  kept_records rt r =
      let xs = rt.journal.buffer.records.entries ++ r ∷ [] in
      if rt.emit_count % trim_interval == 0
      then drop (length xs - rt.config.max_journal_records) xs
      else xs

  -- The retained scopes after `emit`: at every `trim_interval`-th call the oldest closed ones are evicted.
  abbrev pub kept_scopes : Runtime W → List BufferedScope
  kept_scopes rt =
      let bs = live rt.journal.buffer.scopes.entries in
      if rt.emit_count % trim_interval == 0
      then evict (closed_count bs - rt.config.max_journal_records) bs
      else bs

  pub record_emitted_lem :
      (rt : Runtime W) (t : ℕ) (kind : EventKind) (message : String) (fields : Fields) (now : Now)
      → IsValid rt.journal
      → rt.journal.next_record_id < usize_max
      → Returns (record_emitted sink rt t kind message fields now) λ (rt', r, scope).
        Stepped rt rt.stacks rt'
        × (rt'.config ≡ rt.config)
        × (rt'.emit_count ≡ rt.emit_count)
        × (rt'.journal.buffer.records.entries
            ≡ rt.journal.buffer.records.entries ++ emitted rt t kind message fields now ∷ [])
        × (rt'.journal.buffer.scopes ≡ rt.journal.buffer.scopes)
  unfolding record_emitted
  record_emitted_lem rt t kind message fields now v room =
      let ((j, id, r, scope), run, (valid, same_id, next, kept, current, same, at, more, scopes)) =
        record_no_write_in_scope_lem noop_writer rt.journal kind message fields (top (rt.stacks t))
          now v room in
      let made : r ≡ emitted rt t kind message fields now =
        same
        ∙ ap
            (λ i. record {
              id = i;
              scope = top (rt.stacks t);
              time_ns = now.nanos;
              kind = event kind message fields;
            })
            same_id in
      (
        (with_journal rt j, r, scope),
        rw run,
        (
          record {
            valid = valid;
            scope_ids = omega (arith, kept);
            record_ids = omega (arith, next, same_id);
            stacks = refl;
          },
          refl,
          refl,
          more ∙ ap (λ e. rt.journal.buffer.records.entries ++ e ∷ []) made,
          scopes,
        ),
      )

  pub trim_due_lem :
      (rt : Runtime W) (count : ℕ)
      → IsValid rt.journal
      → Returns
          (trim_due sink rt count)
          λ rt'. if count % trim_interval == 0 then Trimmed rt rt' else (rt' ≡ rt)
  unfolding trim_due
  trim_due_lem rt count v = elim (Bool-cases (count % trim_interval == 0)) [
    | inl due ↦ let (rt', run, w) = trim_pass_lem rt v in (rt', rw due run, rw due w)
    | inr not_due ↦ (rt, rw not_due, rw not_due refl)
  ]

  -- From a valid journal with a record identifier left, `emit` on any thread returns, with a valid
  -- journal and all scope stacks as they were: the count of calls goes up by one, modulo 2 ^ 64, and there is
  -- one record more, at the end, in the innermost scope of that thread. Where the count was a multiple of
  -- 128, the oldest records beyond the configured number are dropped, and the oldest closed scopes beyond it;
  -- otherwise the records and the scopes stay.
  pub emit-kept_records :
      (rt : Runtime W) (t : ℕ) (kind : EventKind) (message : String) (fields : Fields) (now : Now)
      → IsValid rt.journal
      → rt.journal.next_record_id < usize_max
      → Returns (emit sink rt t kind message fields now) λ rt'.
        Stepped rt rt.stacks rt'
        × (rt'.emit_count ≡ (rt.emit_count + 1) % 2 ^ 64)
        × (rt'.journal.buffer.records.entries
            ≡ kept_records rt (emitted rt t kind message fields now))
        × (live rt'.journal.buffer.scopes.entries ≡ kept_scopes rt)
  unfolding emit count_emitted write_emitted
  emit-kept_records rt t kind message fields now v room =
      let ((a, r, scope), run, (w, config, counted, more, scopes)) =
        record_emitted_lem rt t kind message fields now v room in
      let b = (count_emitted sink a).0 in
      let max_of = λ (c : Config). c.max_journal_records in
      let (c, run', trimmed) = trim_due_lem b a.emit_count w.valid in
      let same_due = ap (λ n. n % trim_interval == 0) counted in
      let ran : emit sink rt t kind message fields now ≡ ok (write_emitted sink c r scope) =
        rw (run, ◌>>=◌, run') in
      elim (Bool-cases (rt.emit_count % trim_interval == 0)) [
        | inl due ↦
            let (u, scope_ids, record_ids, stacks, same, dropped, evicted) : Trimmed b c =
              subst (λ x. if x then Trimmed b c else (c ≡ b)) (same_due ∙ due) trimmed in
            (
              write_emitted sink c r scope,
              ran,
              (
                record {
                  valid = u;
                  scope_ids = omega (arith, scope_ids, w.scope_ids);
                  record_ids = omega (arith, record_ids, w.record_ids);
                  stacks = stacks ∙ w.stacks;
                },
                same ∙ ap (λ n. (n + 1) % 2 ^ 64) counted,
                rw due (dropped ∙ rw (more, ap max_of config)),
                rw due (evicted ∙ rw (scopes, ap max_of config)),
              ),
            )
        | inr not_due ↦
            let stays : c ≡ b =
              subst (λ x. if x then Trimmed b c else (c ≡ b)) (same_due ∙ not_due) trimmed in
            (
              write_emitted sink b r scope,
              ran ∙ ap (λ d. ok (write_emitted sink d r scope)) stays,
              (
                record {
                  valid = w.valid;
                  scope_ids = w.scope_ids;
                  record_ids = w.record_ids;
                  stacks = w.stacks;
                },
                ap (λ n. (n + 1) % 2 ^ 64) counted,
                rw not_due more,
                rw not_due (ap (λ (s : Scopes). live s.entries) scopes),
              ),
            )
      ]

  pub set_scope_exit_messages_lem :
      (rt : Runtime W) (id : ℕ) (msgs : ExitMessages)
      → IsValid rt.journal
      → Returns
          (set_scope_exit_messages sink rt id msgs)
          λ rt'. Stepped rt rt.stacks rt' × (kept_ids rt' ≡ kept_ids rt)
  unfolding set_scope_exit_messages
  set_scope_exit_messages_lem rt id msgs v =
      let ((j, r), run, ((w, scopes, records), ids)) =
        messages_lem noop_writer rt.journal id msgs v in
      (
        with_journal rt j,
        rw run,
        (record { valid = w; scope_ids = scopes; record_ids = records; stacks = refl }, ids),
      )

  pub clear_journal-Stepped :
      (rt : Runtime W) → IsValid rt.journal → Stepped rt rt.stacks (clear_journal sink rt)
  unfolding clear_journal flush
  clear_journal-Stepped rt v =
      let (w, scopes, records) = clear_lem noop_writer rt.journal v in
      record { valid = w; scope_ids = scopes; record_ids = records; stacks = refl }
