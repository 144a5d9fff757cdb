-- ===== src/Journal/Nesting.antt =====
-- Properly nested use of a journal (`enter_scope`, `record`, `exit_scope` of src/journal/mod.rs).
use eventline.Prelude.{
  ℕ, suc, ◌+◌, ◌≤◌, ◌<◌, ◌≡◌, String, refl, ap, ◌∙◌, true, some, [], ◌∷◌, inl, inr, arith, ◌==◌,
  ltb, Run, ok, ◌>>=◌, Returns, usize_max, length, length-append, Bool-cases,
}
use eventline.Core.{EventKind, Outcome, Fields}
use eventline.Buffer.Scopes.{BufferedScope}
use eventline.Writer.{Writer}
use eventline.Buffer.Scopes.{live, is_closed}
use eventline.Buffer.Scopes.Update.{find_scope}
use eventline.Journal.{Journal, Now, enter_scope, record_no_write, leave, fresh_scope}
use eventline.Journal.Calls.{record_event, exit_scope, write_to}
use eventline.Journal.Valid.{IsValid, IsValid-same}
use eventline.Journal.Entries.{record_no_write_in_scope_lem}
use eventline.Journal.Crossing.{Entered, enter_lem, Left, leave_lem}

-- A nested use: events, and scopes that are entered, used in a nested way, and exited.
pub data Block : Type 0 where
  done : Block
  logs : EventKind → String → Fields → Now → Block → Block
  scoped : String → Now → Block → Outcome → Now → Block → Block

unfoldable pub scopes_in : Block → ℕ
scopes_in done = 0
scopes_in (logs kind name fields now rest) = scopes_in rest
scopes_in (scoped name now body outcome later rest) = suc (scopes_in body + scopes_in rest)

-- One record for an event and one for an exit.
unfoldable pub records_in : Block → ℕ
records_in done = 0
records_in (logs kind name fields now rest) = suc (records_in rest)
records_in (scoped name now body outcome later rest) = suc (records_in body + records_in rest)

module _ {W : Type 0} (sink : Writer W) where
  pub run_block : Journal W → Block → Run (Journal W)
  run_block j done = ok j
  run_block j (logs kind name fields now rest) = do
    (j', _) ← record_event sink j kind name fields now
    run_block j' rest
  run_block j (scoped name now body outcome later rest) = do
    (j', id) ← enter_scope sink j name now
    k ← run_block j' body
    (l, _) ← exit_scope sink k id outcome later
    run_block l rest

module _ {W : Type 0} where
  -- What a nested use leaves behind: the current scope is back, there are `s` more scopes and `r`
  -- more records, the scopes from before are as they were, and the new ones are closed.
  pub record Nested (j : Journal W) (s r : ℕ) (k : Journal W) : Type 0 where
    pub valid : IsValid k
    pub current : k.current_scope ≡ j.current_scope
    pub scope_ids : k.next_scope_id ≡ j.next_scope_id + s
    pub record_ids : k.next_record_id ≡ j.next_record_id + r
    pub size : length k.buffer.records.entries ≡ length j.buffer.records.entries + r
    pub outer :
        (i : ℕ)
        → i < j.next_scope_id
        → find_scope i (live k.buffer.scopes.entries) ≡ find_scope i (live j.buffer.scopes.entries)
    pub inner :
        (i : ℕ)
        → j.next_scope_id ≤ i
        → i < k.next_scope_id
        → (b : BufferedScope) × (find_scope i (live k.buffer.scopes.entries) ≡ some b)
          × (is_closed b ≡ true)

module _ {W : Type 0} (sink : Writer W) where
  log_lem :
      (j : Journal W) (kind : EventKind) (name : String) (fields : Fields) (now : Now)
      → IsValid j
      → j.next_record_id < usize_max
      → Returns (record_event sink j kind name fields now) λ (k, _). Nested j 0 1 k
  unfolding record_event record_no_write
  log_lem j kind name fields now v room =
      let (
        (k, id, entry, scope),
        run,
        (valid, fresh, next, kept, current, same, at, more, scopes),
      ) =
        record_no_write_in_scope_lem sink j kind name fields j.current_scope now v room in
      (
        (record k { writer = write_to sink k.writer entry scope }, id),
        rw run,
        record {
          valid = IsValid-same k _ k.current_scope valid;
          current = current;
          scope_ids = omega (arith, kept);
          record_ids = omega (arith, next, fresh);
          size = ap length more ∙ length-append j.buffer.records.entries (entry ∷ []);
          outer = λ i less. rw scopes;
          inner = λ i le less. absurd (omega (arith, kept));
        },
      )

  Nested-append :
      (j k l : Journal W) (s r s' r' m n : ℕ)
      → m ≡ s + s'
      → n ≡ r + r'
      → Nested j s r k
      → Nested k s' r' l
      → Nested j m n l
  Nested-append j k l s r s' r' m n e e' v w = record {
    valid = w.valid;
    current = w.current ∙ v.current;
    scope_ids = omega (arith, v.scope_ids, w.scope_ids);
    record_ids = omega (arith, v.record_ids, w.record_ids);
    size = omega (arith, v.size, w.size);
    outer = λ i less. w.outer i (omega (arith, v.scope_ids)) ∙ v.outer i less;
    inner = λ i le less. elim (Bool-cases (ltb i k.next_scope_id)) [
      | inl before ↦
          let (b, e, shut) = v.inner i le (ground arith) in (b, w.outer i (ground arith) ∙ e, shut)
      | inr after ↦ w.inner i (ground arith) less
    ];
  }

  -- Entering, a nested use, and the exit.
  Nested-scoped :
      (j k l m : Journal W) (name : String) (now : Now) (s r : ℕ)
      → Entered sink j name now k
      → Nested k s r l
      → Left sink l j.next_scope_id (fresh_scope j.next_scope_id (some name) j.current_scope now) m
      → Nested j (suc s) (suc r) m
  unfolding leave
  Nested-scoped j k l m name now s r v w x =
      let id = j.next_scope_id in
      let back : leave l.current_scope id j.current_scope ≡ j.current_scope =
        rw (w.current, v.current, leave) (ground arith) in
      record {
        valid = x.valid;
        current = x.current ∙ back;
        scope_ids = omega (arith, v.next, w.scope_ids, x.scope_ids);
        record_ids = omega (arith, v.next_record, w.record_ids, x.next_record);
        size = omega (arith, ap (λ t. length t.entries) v.records, w.size, x.size);
        outer = λ i less.
            x.others i (omega arith) ∙ w.outer i (omega (arith, v.next)) ∙ v.others i less;
        inner = λ i le less. elim (Bool-cases (i == id)) [
          | inl same ↦
              let e : i ≡ id = ground arith in
              let (c, found, shut) = x.closed in
              (c, ap (λ n. find_scope n (live m.buffer.scopes.entries)) e ∙ found, shut)
          | inr apart ↦
              let (b, found, shut) =
                w.inner i (ground (arith, v.next)) (omega (arith, x.scope_ids)) in
              (b, x.others i (ground arith) ∙ found, shut)
        ];
      }

  -- The four parts of a scoped use, one after the other.
  run_scoped :
      (j k l m n : Journal W) (name : String) (now : Now) (body : Block) (outcome : Outcome)
      (later : Now) (rest : Block) (id id' rid : ℕ)
      → enter_scope sink j name now ≡ ok (k, id')
      → id' ≡ id
      → run_block sink k body ≡ ok l
      → exit_scope sink l id outcome later ≡ ok (m, rid)
      → run_block sink m rest ≡ ok n
      → run_block sink j (scoped name now body outcome later rest) ≡ ok n
  unfolding run_block
  run_scoped j k l m n name now body outcome later rest id id' rid enter same run exit more =
      let exit' : exit_scope sink l id' outcome later ≡ ok (m, rid) =
        ap (λ i. exit_scope sink l i outcome later) same ∙ exit in
      rw (enter, ◌>>=◌, run, exit') more

  -- From a valid journal on, a properly nested use of `enter_scope`, `record` and `exit_scope` of
  -- any depth that does not exhaust the identifiers does not panic, and afterwards the current scope
  -- is the one from before, every scope entered meanwhile is closed, every scope from before is as
  -- it was, and there is exactly one record more for each event and for each exit.
  pub run_block-Nested :
      (j : Journal W) (block : Block)
      → IsValid j
      → j.next_scope_id + scopes_in block < usize_max
      → j.next_record_id + records_in block < usize_max
      → Returns (run_block sink j block) (Nested j (scopes_in block) (records_in block))
  unfolding run_block scopes_in records_in
  run_block-Nested j done v room room' = (
    j,
    refl,
    record {
      valid = v;
      current = refl;
      scope_ids = omega arith;
      record_ids = omega arith;
      size = omega arith;
      outer = λ i less. refl;
      inner = λ i le less. absurd (omega arith);
    },
  )
  run_block-Nested j (logs kind name fields now rest) v room room' =
      let ((k, id), run, w) = log_lem j kind name fields now v (omega (arith, room')) in
      let (l, later, x) =
        run_block-Nested k rest w.valid (omega (arith, room, w.scope_ids))
          (omega (arith, room', w.record_ids)) in
      (l, rw (run, ◌>>=◌) later, Nested-append j k l 0 1 _ _ _ _ (omega arith) (omega arith) w x)
  run_block-Nested j (scoped name now body outcome later rest) v room room' =
      let id = j.next_scope_id in
      let b = fresh_scope id (some name) j.current_scope now in
      let ((k, id'), run, (same_id, w)) = enter_lem sink j name now v (omega (arith, room)) in
      let (l, run_body, x) =
        run_block-Nested k body w.valid (omega (arith, room, w.next))
          (omega (arith, room', w.next_record)) in
      let ((m, rid), run_exit, y) =
        leave_lem sink l id outcome later b x.valid
          (omega (arith, room', w.next_record, x.record_ids))
          (x.outer id (omega (arith, w.next)) ∙ w.here) refl in
      let z = Nested-scoped j k l m name now (scopes_in body) (records_in body) w x y in
      let (n, run_rest, u) =
        run_block-Nested m rest z.valid (omega (arith, room, z.scope_ids))
          (omega (arith, room', z.record_ids)) in
      (
        n,
        run_scoped j k l m n name now body outcome later rest id id' rid run same_id run_body
            run_exit run_rest,
        Nested-append j m n _ _ _ _ _ _ (omega arith) (omega arith) z u,
      )
