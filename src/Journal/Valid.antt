-- ===== src/Journal/Valid.antt =====
-- The invariant of a journal: sound stores, identifiers that ascend below the counters, and counters
-- that bound the sizes. Entering, recording and exiting keep it and do not panic.
use eventline.Prelude.{
  ℕ, ◌+◌, ◌≤◌, ◌<◌, ◌≡◌, String, refl, ap, ◌∙◌, Option, none, some, List, [], ◌∷◌, ◌++◌, inl, inr,
  map, arith, ◌==◌, ok, ◌>>=◌, Returns, usize_max, find?-append_last, length, Bool-cases,
}
use eventline.Core.{Record}
use eventline.Buffer.Scopes.{BufferedScope}
use eventline.Buffer.Scopes.Exit
use eventline.Writer.{Writer}
use mathlib.Core.List.{map-append}
use native.Mathlib.Numerals.{add-one}
use eventline.Buffer.Records.Sound as RecordsSound
use eventline.Buffer.Scopes.Sound as ScopesSound
use eventline.Buffer.Scopes.{live}
use eventline.Buffer.Scopes.Update.{find_scope}
use eventline.Journal.{
  Journal, Now, next_id, fresh_scope, new, write_metadata_to, write_scope_metadata, open_scope,
}
use eventline.Journal.Ids.{Ascends, Ascends-append}

abbrev pub record_ids : List Record → List ℕ
record_ids = map (λ r. r.id)

abbrev pub scope_ids : List BufferedScope → List ℕ
scope_ids = map (λ b. b.scope.id)

pub record IsValid {W : Type 0} (j : Journal W) : Type 0 where
  pub records_sound : RecordsSound.IsSound j.buffer.records
  pub scopes_sound : ScopesSound.IsSound j.buffer.scopes
  pub records_ascend : Ascends 0 (record_ids j.buffer.records.entries) j.next_record_id
  pub scopes_ascend : Ascends 0 (scope_ids (live j.buffer.scopes.entries)) j.next_scope_id
  pub records_few : length j.buffer.records.entries ≤ j.next_record_id
  pub slots_few : length j.buffer.scopes.entries ≤ j.next_scope_id

pub new-IsValid : {W : Type 0} (run_id : String) → IsValid (new {W = W} run_id)
unfolding new live
new-IsValid run_id = record {
  records_sound = RecordsSound.no_records-IsSound;
  scopes_sound = ScopesSound.no_scopes-IsSound;
  records_ascend = omega arith;
  scopes_ascend = omega arith;
  records_few = omega arith;
  slots_few = omega arith;
}

module _ {W : Type 0} (sink : Writer W) where
  -- The metadata of a retained scope is written; only the writer changes.
  write_metadata_to_lem :
      (o : Option W) (j : Journal W) (id : ℕ) (b : BufferedScope)
      → j.writer ≡ o
      → ScopesSound.IsSound j.buffer.scopes
      → find_scope id (live j.buffer.scopes.entries) ≡ some b
      → (w : Option W) × (write_metadata_to sink o j id ≡ ok (record j { writer = w }))
  unfolding write_metadata_to Exit.get_scope_by_id
  write_metadata_to_lem none j id b e v hit = (j.writer, refl)
  write_metadata_to_lem (some w) j id b e v hit = elim (Bool-cases (sink.wants_scope_metadata w)) [
    | inl wants ↦ (
      some (sink.write_scope b.scope w).0,
      rw (wants, ScopesSound.get_lem j.buffer.scopes id v, ◌>>=◌, hit),
    )
    | inr no_wants ↦ (j.writer, rw no_wants)
  ]

  -- What entering a scope does: a fresh identifier, one more scope, which is open.
  abbrev pub Opens : Journal W → Option String → Option ℕ → Now → Journal W × ℕ → Type 0
  Opens j name parent now (j', id) =
      IsValid j'
      × (id ≡ j.next_scope_id)
      × (j'.next_scope_id ≡ id + 1)
      × (j'.next_record_id ≡ j.next_record_id)
      × (j'.current_scope ≡ j.current_scope)
      × (live j'.buffer.scopes.entries
          ≡ live j.buffer.scopes.entries ++ fresh_scope id name parent now ∷ [])
      × (j'.buffer.records ≡ j.buffer.records)

  -- From a valid journal with a scope identifier left, entering a scope returns a valid journal with
  -- one scope more, at the end, open, under the next identifier; the records, the current scope and
  -- the other scopes stay. The callers then set the current scope.
  pub open_scope_lem :
      (j : Journal W) (name : Option String) (parent : Option ℕ) (now : Now)
      → IsValid j
      → j.next_scope_id < usize_max
      → Returns (open_scope sink j name parent now) (Opens j name parent now)
  unfolding open_scope write_scope_metadata
  open_scope_lem j name parent now v room =
      let id = j.next_scope_id in
      let b = fresh_scope id name parent now in
      let (scopes, pushed, (sound, same, short)) =
        ScopesSound.push_lem j.buffer.scopes b v.scopes_sound (omega (arith, v.slots_few)) in
      let (c, last) =
        find?-append_last (λ x. x.scope.id == id) (live j.buffer.scopes.entries) b (ground arith) in
      let next : next_id id ≡ id + 1 = omega arith in
      let j' = record j {
        next_scope_id = next_id id;
        buffer = record (j.buffer) { scopes = scopes };
      } in
      let (w, wrote) =
        write_metadata_to_lem j.writer j' id c refl sound (ap (find_scope id) same ∙ last) in
      let ids : scope_ids (live scopes.entries)
          ≡ scope_ids (live j.buffer.scopes.entries) ++ id ∷ [] =
        ap scope_ids same ∙ map-append (λ x. x.scope.id) (live j.buffer.scopes.entries) (b ∷ []) in
      (
        (record j' { writer = w }, id),
        rw (pushed, ◌>>=◌, wrote),
        (
          record {
            records_sound = v.records_sound;
            scopes_sound = sound;
            records_ascend = v.records_ascend;
            scopes_ascend = rw (ids, next, add-one) (Ascends-append 0 id _ v.scopes_ascend);
            records_few = v.records_few;
            slots_few = omega (arith, short, v.slots_few);
          },
          refl,
          next,
          refl,
          refl,
          same,
          refl,
        ),
      )

-- The writer and the current scope do not matter.
pub IsValid-same :
    {W : Type 0} (j : Journal W) (w : Option W) (c : Option ℕ)
    → IsValid j
    → IsValid (record j { writer = w; current_scope = c })
IsValid-same j w c v = record {
  records_sound = v.records_sound;
  scopes_sound = v.scopes_sound;
  records_ascend = v.records_ascend;
  scopes_ascend = v.scopes_ascend;
  records_few = v.records_few;
  slots_few = v.slots_few;
}
