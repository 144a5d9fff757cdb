-- ===== src/Journal/Entries.antt =====
-- Recording an event (src/journal/mod.rs) keeps a journal valid, does not panic, and gives one record.
use eventline.Prelude.{
  ℕ, ◌+◌, ◌<◌, ◌≡◌, String, refl, ap, ◌∙◌, Option, none, some, [], ◌∷◌, ◌++◌, arith, ok, ◌>>=◌,
  Returns, usize_max, length, length-append,
}
use eventline.Core.{EventKind, Fields, event, Record, Scope}
use eventline.Buffer.{Buffer}
use eventline.Buffer.Records
use eventline.Buffer.Records.{Records}
use eventline.Buffer.Scopes.Exit
use eventline.Writer.{Writer}
use mathlib.Core.List.{map-append}
use native.Mathlib.Numerals.{add-one}
use eventline.Buffer.Records.Sound as RecordsSound
use eventline.Buffer.Scopes.Sound as ScopesSound
use eventline.Buffer.Scopes.{live}
use eventline.Buffer.Scopes.Exit.{exited}
use eventline.Buffer.Scopes.Update.{find_scope}
use eventline.Buffer.Scopes.Vector.{scope_of}
use eventline.Journal.{Journal, Now, next_id, scope_in, record_no_write_in_scope}
use eventline.Journal.Ids.{Ascends-append}
use eventline.Journal.Valid.{IsValid, record_ids}

-- The scope of an event as it is retained, or nothing.
abbrev pub retained : Buffer → Option ℕ → Option Scope
retained b none = none
retained b (some id) = scope_of (find_scope id (live b.scopes.entries))

module _ {W : Type 0} (sink : Writer W) where
  scope_in_lem :
      (b : Buffer) (o : Option ℕ) → ScopesSound.IsSound b.scopes → scope_in b o ≡ ok (retained b o)
  unfolding scope_in Exit.get_scope_by_id
  scope_in_lem b none v = refl
  scope_in_lem b (some id) v = rw (ScopesSound.get_lem b.scopes id v) (ground arith)

  -- One more record under a fresh identifier keeps the journal valid.
  pub push_record :
      (j : Journal W) (entry : Record)
      → IsValid j
      → j.next_record_id < usize_max
      → entry.id ≡ j.next_record_id
      → Returns (Records.push j.buffer.records entry) λ records.
        IsValid (record j {
          next_record_id = next_id j.next_record_id;
          buffer = record (j.buffer) { records = records };
        })
        × (records.entries ≡ j.buffer.records.entries ++ entry ∷ [])
  push_record j entry v room same_id =
      let id = j.next_record_id in
      let next : next_id id ≡ id + 1 = omega arith in
      let (records, pushed, (sound, same)) =
        RecordsSound.push_lem j.buffer.records entry v.records_sound
          (omega (arith, v.records_few)) in
      let ids : record_ids records.entries ≡ record_ids j.buffer.records.entries ++ id ∷ [] =
        ap record_ids same
        ∙ map-append (λ x. x.id) j.buffer.records.entries (entry ∷ [])
        ∙ ap (λ k. record_ids j.buffer.records.entries ++ k ∷ []) same_id in
      (
        records,
        pushed,
        (
          record {
            records_sound = sound;
            scopes_sound = v.scopes_sound;
            records_ascend = rw (ids, next, add-one) (Ascends-append 0 id _ v.records_ascend);
            scopes_ascend = v.scopes_ascend;
            records_few = omega (
              arith,
              ap length same,
              length-append j.buffer.records.entries (entry ∷ []),
              v.records_few,
            );
            slots_few = v.slots_few;
          },
          same,
        ),
      )

  -- What recording an event does: a fresh record at the end, and the scope as it stands.
  abbrev pub RecordsEvent :
      Journal W
      → EventKind
      → String
      → Fields
      → Option ℕ
      → Now
      → Journal W × ℕ × Record × Option Scope
      → Type 0
  RecordsEvent j kind name fields scope_id now (j', id, entry, scope) =
      IsValid j'
      × (id ≡ j.next_record_id)
      × (j'.next_record_id ≡ id + 1)
      × (j'.next_scope_id ≡ j.next_scope_id)
      × (j'.current_scope ≡ j.current_scope)
      × (entry ≡ record {
        id = id;
        scope = scope_id;
        time_ns = now.nanos;
        kind = event kind name fields;
      })
      × (scope ≡ retained j.buffer scope_id)
      × (j'.buffer.records.entries ≡ j.buffer.records.entries ++ entry ∷ [])
      × (j'.buffer.scopes ≡ j.buffer.scopes)

  -- From a valid journal with a record identifier left, `record_no_write_in_scope` returns a valid
  -- journal, exactly one record more, at the end, under the next identifier, and the retained scope
  -- of the event if there is one; the scopes and the current scope stay.
  pub record_no_write_in_scope_lem :
      (j : Journal W) (kind : EventKind) (name : String) (fields : Fields) (scope_id : Option ℕ)
      (now : Now)
      → IsValid j
      → j.next_record_id < usize_max
      → Returns
          (record_no_write_in_scope sink j kind name fields scope_id now)
          (RecordsEvent j kind name fields scope_id now)
  unfolding record_no_write_in_scope
  record_no_write_in_scope_lem j kind name fields scope_id now v room =
      let id = j.next_record_id in
      let entry : Record = record {
        id = id;
        scope = scope_id;
        time_ns = now.nanos;
        kind = event kind name fields;
      } in
      let (records, pushed, (valid, same)) = push_record j entry v room refl in
      (
        (
          record j {
            next_record_id = next_id id;
            buffer = record (j.buffer) { records = records };
          },
          id,
          entry,
          retained j.buffer scope_id,
        ),
        rw (scope_in_lem j.buffer scope_id v.scopes_sound, ◌>>=◌, pushed),
        (valid, refl, omega arith, refl, refl, refl, refl, same, refl),
      )
