-- ===== src/Journal/Crossing.antt =====
-- What one `enter_scope` and one `exit_scope` (src/journal/mod.rs) do to a journal.
use eventline.Prelude.{
  ℕ, ◌+◌, ◌<◌, ◌≡◌, ◌≢◌, String, refl, ap, ◌∙◌, true, false, some, [], ◌∷◌, ◌++◌, arith, ◌>>=◌,
  Returns, usize_max, length, length-append, subst,
}
use eventline.Core.{Outcome}
use eventline.Buffer.Scopes.{BufferedScope}
use eventline.Writer.{Writer}
use eventline.Buffer.Scopes.{live, is_closed}
use eventline.Buffer.Scopes.Exit.{exited, exit_duration}
use eventline.Buffer.Scopes.Update.{find_scope}
use eventline.Journal.{
  Journal, Now, enter_scope, enter_scope_with_parent, leave, exit_record, fresh_scope,
}
use eventline.Journal.Calls.{exit_scope}
use eventline.Journal.Valid.{IsValid, IsValid-same, open_scope_lem}
use eventline.Journal.Exits.{exit_scope_no_write_lem, Exits}
use eventline.Journal.Finding.{
  find_scope-fresh, find_scope-append, find_scope-same, finalize-other, finalize-open,
}
use eventline.Journal.Steps.{write_exit_lem}

module _ {W : Type 0} (sink : Writer W) where
  -- What `enter_scope` leaves behind.
  pub record Entered (j : Journal W) (name : String) (now : Now) (k : Journal W) : Type 0 where
    pub valid : IsValid k
    pub current : k.current_scope ≡ some j.next_scope_id
    pub next : k.next_scope_id ≡ j.next_scope_id + 1
    pub records : k.buffer.records ≡ j.buffer.records
    pub next_record : k.next_record_id ≡ j.next_record_id
    pub others :
        (i : ℕ)
        → i < j.next_scope_id
        → find_scope i (live k.buffer.scopes.entries) ≡ find_scope i (live j.buffer.scopes.entries)
    pub here :
        find_scope j.next_scope_id (live k.buffer.scopes.entries)
        ≡ some (fresh_scope j.next_scope_id (some name) j.current_scope now)

  pub enter_lem :
      (j : Journal W) (name : String) (now : Now)
      → IsValid j
      → j.next_scope_id < usize_max
      → Returns
          (enter_scope sink j name now)
          λ (k, id). (id ≡ j.next_scope_id) × Entered j name now k
  unfolding enter_scope enter_scope_with_parent
  enter_lem j name now v room =
      let ((k, id), run, (valid, same_id, next, kept, current, same, records)) =
        open_scope_lem sink j (some name) j.current_scope now v room in
      let b = fresh_scope j.next_scope_id (some name) j.current_scope now in
      let bs = live j.buffer.scopes.entries in
      let shown : live k.buffer.scopes.entries ≡ bs ++ b ∷ [] =
        same ∙ ap (λ i. bs ++ fresh_scope i (some name) j.current_scope now ∷ []) same_id in
      (
        (record k { current_scope = some id }, id),
        rw run,
        (
          same_id,
          record {
            valid = IsValid-same k k.writer (some id) valid;
            current = ap some same_id;
            next = omega (arith, next, same_id);
            records = records;
            next_record = kept;
            others = λ i less. rw (shown, find_scope-append i bs b) (ground arith);
            here =
                rw
                  (
                    shown,
                    find_scope-append j.next_scope_id bs b,
                    find_scope-fresh 0 j.next_scope_id j.next_scope_id bs v.scopes_ascend
                        (omega arith),
                  )
                  (ground arith);
          },
        ),
      )

  -- What `exit_scope` leaves behind where the scope is open.
  pub record Left (k : Journal W) (id : ℕ) (b : BufferedScope) (l : Journal W) : Type 0 where
    pub valid : IsValid l
    pub current : l.current_scope ≡ leave k.current_scope id b.scope.parent
    pub scope_ids : l.next_scope_id ≡ k.next_scope_id
    pub next_record : l.next_record_id ≡ k.next_record_id + 1
    pub size : length l.buffer.records.entries ≡ length k.buffer.records.entries + 1
    pub others :
        (i : ℕ)
        → i ≢ id
        → find_scope i (live l.buffer.scopes.entries) ≡ find_scope i (live k.buffer.scopes.entries)
    pub closed :
        (c : BufferedScope) × (find_scope id (live l.buffer.scopes.entries) ≡ some c)
        × (is_closed c ≡ true)

  pub leave_lem :
      (k : Journal W) (id : ℕ) (outcome : Outcome) (later : Now) (b : BufferedScope)
      → IsValid k
      → k.next_record_id < usize_max
      → find_scope id (live k.buffer.scopes.entries) ≡ some b
      → is_closed b ≡ false
      → Returns (exit_scope sink k id outcome later) λ (l, _). Left k id b l
  unfolding exit_scope exited
  leave_lem k id outcome later b v room e still =
      let at = later.instant in
      let bs = live k.buffer.scopes.entries in
      let ((l, rid, payload), run, (valid, fresh, next, kept, shown, outcome')) =
        exit_scope_no_write_lem sink k id outcome later v room in
      let (writer, wrote) = write_exit_lem sink l payload in
      let opened = finalize-open id later.millis at bs b e still in
      let (paid, more, left) =
        subst (Exits k id outcome later l payload) (ap (λ p. p.1) opened) outcome' in
      let entry = exit_record k.next_record_id id outcome (exit_duration b later.millis at) later in
      (
        (record l { writer = writer }, rid),
        rw (run, ◌>>=◌, wrote),
        record {
          valid = IsValid-same l writer l.current_scope valid;
          current = left;
          scope_ids = kept;
          next_record = omega (arith, next, fresh);
          size = ap length more ∙ length-append k.buffer.records.entries (entry ∷ []);
          others = λ i apart. rw shown (finalize-other i id later.millis at bs apart);
          closed =
              let same = find_scope-same id (exited later.millis at) bs b (λ c. refl) e in
              (exited later.millis at b, rw (shown, ap (λ p. p.0) opened) same, refl);
        },
      )
