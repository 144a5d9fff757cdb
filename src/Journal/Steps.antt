-- ===== src/Journal/Steps.antt =====
-- What each call of a journal (src/journal/mod.rs) leaves: a valid journal, and counters that went up by
-- one at most.
use eventline.Prelude.{
  ℕ, zero, suc, ◌+◌, ◌-◌, ◌≤◌, ◌<◌, max, ◌≡◌, String, or_else, refl, ap, ◌∙◌, Option, none, some,
  List, [], ◌∷◌, inl, inr, arith, ◌>>=◌, Returns, usize_max, length, length-drop, drop,
  Option-cases, Bool-cases,
}
use eventline.Core.{EventKind, Outcome, Fields, Record, ExitMessages, Scope}
use eventline.Buffer
use eventline.Buffer.{Buffer, new_buffer}
use eventline.Buffer.Records
use eventline.Buffer.Records.{Records}
use eventline.Buffer.Scopes.{BufferedScope}
use eventline.Buffer.Scopes.Exit
use eventline.Writer.{Writer}
use eventline.Buffer.Records.Sound as RecordsSound
use eventline.Buffer.Records.Trim as RecordsTrim
use eventline.Buffer.Scopes.Sound as ScopesSound
use eventline.Buffer.Scopes.Trim as ScopesTrim
use eventline.Buffer.Scopes.{live, is_closed}
use eventline.Buffer.Scopes.Slots.{evict, closed_count}
use eventline.Buffer.Scopes.Exit.{with_messages}
use eventline.Buffer.Scopes.Update.{find_scope}
use eventline.Buffer.Scopes.Closing.{vector_messages, set_scope_exit_messages_lem}
use eventline.Journal.{
  Journal, Now, record_no_write, enter_scope, enter_scope_with_parent, enter_scope_unnamed,
  set_scope_exit_messages,
}
use eventline.Journal.Calls.{
  write_to, write_exit, record_event, exit_scope, trim_records, trim_scopes, get_record, clear,
}
use eventline.Journal.Ids.{Ascends, Ascends-lower, Ascends-drop, drop-map}
use eventline.Journal.Valid.{IsValid, IsValid-same, record_ids, scope_ids, open_scope_lem}
use eventline.Journal.Entries.{record_no_write_in_scope_lem}
use eventline.Journal.Exits.{exit_scope_no_write_lem, scope_ids-modify_first}

-- Eviction keeps the order of the identifiers.
Ascends-evict :
    (n lo hi : ℕ) (bs : List BufferedScope)
    → Ascends lo (scope_ids bs) hi
    → Ascends lo (scope_ids (evict n bs)) hi
unfolding evict
Ascends-evict zero lo hi bs a = a
Ascends-evict (suc n) lo hi [] a = a
Ascends-evict (suc n) lo hi (b ∷ bs) a = elim (Bool-cases (is_closed b)) [
  | inl shut ↦ rw shut (
      Ascends-lower (suc b.scope.id) lo hi _ (omega (arith, a.0))
        (Ascends-evict n (suc b.scope.id) hi bs a.1))
  | inr still ↦ rw still (a.0, Ascends-evict (suc n) (suc b.scope.id) hi bs a.1)
]

scope_ids-messages :
    (bs : List BufferedScope) (id : ℕ) (msgs : ExitMessages)
    → scope_ids (vector_messages bs id msgs).0 ≡ scope_ids bs
unfolding vector_messages with_messages
scope_ids-messages bs id msgs = elim (Option-cases (find_scope id bs)) [
  | inl e ↦ rw (e, vector_messages)
  | inr (b, e) ↦
      rw (e, vector_messages) (scope_ids-modify_first id (with_messages msgs) bs (λ b. refl))
]

module _ {W : Type 0} (sink : Writer W) where
  abbrev pub Keeps : Journal W → Journal W → Type 0
  Keeps j j' =
      IsValid j'
      × (j'.next_scope_id ≤ j.next_scope_id + 1)
      × (j'.next_record_id ≤ j.next_record_id + 1)

  abbrev pub Room : ℕ → Journal W → Type 0
  Room n j = (j.next_scope_id + n < usize_max) × (j.next_record_id + n < usize_max)

  pub enter_scope_with_parent_lem :
      (j : Journal W) (name : String) (parent : Option ℕ) (now : Now)
      → IsValid j
      → Room 1 j
      → Returns (enter_scope_with_parent sink j name parent now) λ (j', id). Keeps j j'
  unfolding enter_scope_with_parent
  enter_scope_with_parent_lem j name parent now v room =
      let ((j', id), run, (valid, same_id, next, kept, current, same, records)) =
        open_scope_lem sink j (some name) parent now v (omega (arith, room.0)) in
      ((j', id), run, (valid, omega (arith, next, same_id), omega (arith, kept)))

  pub enter_scope_lem :
      (j : Journal W) (name : String) (now : Now)
      → IsValid j
      → Room 1 j
      → Returns (enter_scope sink j name now) λ (j', id). Keeps j j'
  unfolding enter_scope
  enter_scope_lem j name now v room =
      let ((j', id), run, (valid, next, kept)) =
        enter_scope_with_parent_lem j name j.current_scope now v room in
      (
        (record j' { current_scope = some id }, id),
        rw run,
        (IsValid-same j' j'.writer (some id) valid, next, kept),
      )

  pub enter_scope_unnamed_lem :
      (j : Journal W) (parent : Option ℕ) (now : Now)
      → IsValid j
      → Room 1 j
      → Returns (enter_scope_unnamed sink j parent now) λ (j', id). Keeps j j'
  unfolding enter_scope_unnamed
  enter_scope_unnamed_lem j parent now v room =
      let ((j', id), run, (valid, same_id, next, kept, current, same, records)) =
        open_scope_lem sink j none (or_else parent j.current_scope) now v (omega (arith, room.0)) in
      (
        (record j' { current_scope = some id }, id),
        rw run,
        (
          IsValid-same j' j'.writer (some id) valid,
          omega (arith, next, same_id),
          omega (arith, kept),
        ),
      )

  pub messages_lem :
      (j : Journal W) (id : ℕ) (msgs : ExitMessages)
      → IsValid j
      → Returns (set_scope_exit_messages sink j id msgs) λ (j', r).
        Keeps j j'
        × (scope_ids (live j'.buffer.scopes.entries) ≡ scope_ids (live j.buffer.scopes.entries))
  unfolding set_scope_exit_messages
  messages_lem j id msgs v =
      let ((scopes, r), run, (sound, size, same)) =
        set_scope_exit_messages_lem j.buffer.scopes id msgs v.scopes_sound in
      let ids : scope_ids (live scopes.entries) ≡ scope_ids (live j.buffer.scopes.entries) =
        ap (λ p. scope_ids p.0) same ∙ scope_ids-messages (live j.buffer.scopes.entries) id msgs in
      (
        (record j { buffer = record (j.buffer) { scopes = scopes } }, r),
        rw run,
        (
          (
            record {
              records_sound = v.records_sound;
              scopes_sound = sound;
              records_ascend = v.records_ascend;
              scopes_ascend = rw ids v.scopes_ascend;
              records_few = v.records_few;
              slots_few = omega (arith, size, v.slots_few);
            },
            omega arith,
            omega arith,
          ),
          ids,
        ),
      )

  pub record_event_lem :
      (j : Journal W) (kind : EventKind) (name : String) (fields : Fields) (now : Now)
      → IsValid j
      → Room 1 j
      → Returns (record_event sink j kind name fields now) λ (j', id). Keeps j j'
  unfolding record_event record_no_write
  record_event_lem j kind name fields now v room =
      let ((j', id, entry, scope), run, w) =
        record_no_write_in_scope_lem sink j kind name fields j.current_scope now v
          (omega (arith, room.1)) in
      (
        (record j' { writer = write_to sink j'.writer entry scope }, id),
        rw run,
        (IsValid-same j' _ j'.current_scope w.0, omega (arith, w.3), omega (arith, w.2, w.1)),
      )

  pub write_exit_lem :
      (j : Journal W) (payload : Option (Record × Scope))
      → (w : Option W) × (write_exit sink j payload ≡ record j { writer = w })
  unfolding write_exit
  write_exit_lem j none = (j.writer, refl)
  write_exit_lem j (some (entry, scope)) = (write_to sink j.writer entry (some scope), refl)

  pub exit_scope_lem :
      (j : Journal W) (id : ℕ) (outcome : Outcome) (now : Now)
      → IsValid j
      → Room 1 j
      → Returns (exit_scope sink j id outcome now) λ (j', id). Keeps j j'
  unfolding exit_scope
  exit_scope_lem j scope_id outcome now v room =
      let ((j', id, payload), run, w) =
        exit_scope_no_write_lem sink j scope_id outcome now v (omega (arith, room.1)) in
      let (writer, wrote) = write_exit_lem j' payload in
      (
        (record j' { writer = writer }, id),
        rw (run, ◌>>=◌, wrote),
        (IsValid-same j' writer j'.current_scope w.0, omega (arith, w.3), omega (arith, w.2, w.1)),
      )

  -- Trimming hands out no identifier, drops this many of the oldest records, and evicts this many of the
  -- oldest closed scopes.
  abbrev pub Trims : Journal W → ℕ → ℕ → Journal W → Type 0
  Trims j n m k =
      Keeps j k
      × (live k.buffer.scopes.entries ≡ evict m (live j.buffer.scopes.entries))
      × (k.next_scope_id ≡ j.next_scope_id)
      × (k.next_record_id ≡ j.next_record_id)
      × (k.buffer.records.entries ≡ drop n j.buffer.records.entries)

  pub trim_records_lem :
      (j : Journal W) (max : ℕ)
      → IsValid j
      → Returns (trim_records j max) (Trims j (length j.buffer.records.entries - max) 0)
  unfolding trim_records
  trim_records_lem j max v =
      let xs = j.buffer.records.entries in
      let (records, run, (sound, same)) =
        RecordsTrim.trim_lem max j.buffer.records v.records_sound in
      let ids : record_ids records.entries ≡ drop (length xs - max) (record_ids xs) =
        ap record_ids same ∙ drop-map (λ r. r.id) (length xs - max) xs in
      (
        record j { buffer = record (j.buffer) { records = records } },
        rw run,
        (
          (
            record {
              records_sound = sound;
              scopes_sound = v.scopes_sound;
              records_ascend = rw ids (Ascends-drop _ 0 _ _ v.records_ascend);
              scopes_ascend = v.scopes_ascend;
              records_few =
                  omega (arith, ap length same, length-drop (length xs - max) xs, v.records_few);
              slots_few = v.slots_few;
            },
            omega arith,
            omega arith,
          ),
          unfold evict in refl,
          refl,
          refl,
          same,
        ),
      )

  pub trim_scopes_lem :
      (j : Journal W) (max : ℕ)
      → IsValid j
      → Returns (trim_scopes j max) (Trims j 0 (closed_count (live j.buffer.scopes.entries) - max))
  unfolding trim_scopes
  trim_scopes_lem j max v =
      let (scopes, run, (sound, compact, same, size)) =
        ScopesTrim.trim-evict max j.buffer.scopes v.scopes_sound in
      (
        record j { buffer = record (j.buffer) { scopes = scopes } },
        rw run,
        (
          (
            record {
              records_sound = v.records_sound;
              scopes_sound = sound;
              records_ascend = v.records_ascend;
              scopes_ascend = rw same (Ascends-evict _ 0 _ _ v.scopes_ascend);
              records_few = v.records_few;
              slots_few = omega (arith, size, v.slots_few);
            },
            omega arith,
            omega arith,
          ),
          same,
          refl,
          refl,
          refl,
        ),
      )

  pub get_record_lem :
      (j : Journal W) (id : ℕ) → IsValid j → Returns (get_record j id) λ (j', r). Keeps j j'
  unfolding get_record
  get_record_lem j id v =
      let ((records, r), run, (sound, same, answer)) =
        RecordsSound.get_record_by_id_lem j.buffer.records id v.records_sound in
      (
        (record j { buffer = record (j.buffer) { records = records } }, r),
        rw run,
        (
          record {
            records_sound = sound;
            scopes_sound = v.scopes_sound;
            records_ascend = rw same v.records_ascend;
            scopes_ascend = v.scopes_ascend;
            records_few = rw same v.records_few;
            slots_few = v.slots_few;
          },
          omega arith,
          omega arith,
        ),
      )

  pub clear_lem : (j : Journal W) → IsValid j → Keeps j (clear j)
  unfolding clear Buffer.clear Exit.clear Records.clear live
  clear_lem j v = (
    record {
      records_sound = unfold Records.clear in RecordsSound.clear-IsSound j.buffer.records;
      scopes_sound = ScopesSound.no_scopes-IsSound;
      records_ascend = omega arith;
      scopes_ascend = omega arith;
      records_few = omega arith;
      slots_few = omega arith;
    },
    omega arith,
    omega arith,
  )
