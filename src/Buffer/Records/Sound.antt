-- ===== src/Buffer/Records/Sound.antt =====
-- The invariant of the record store: positions fit a `usize`, and an index that was built is right.
use eventline.Prelude.{
  ℕ, ◌+◌, ◌≤◌, ◌<◌, ◌≡◌, refl, ap, ◌∙◌, true, Option, none, some, List, [], ◌∷◌, ◌++◌, inl, inr,
  arith, ◌==◌, ok, ◌>>=◌, Returns, usize_max, add_usize_lem, checked_add, is_none_or, is_some,
  length, length-append, subst, find?, find?-position, no_keys, Option-cases, Bool-cases,
}
use eventline.Core.{Record}
use eventline.Buffer.Positions.{Index, Indexes, locate}
use eventline.Buffer.Positions.Locate.{locate-position}
use eventline.Buffer.Positions.Updates.{own_key, note_lem, build_lem}
use eventline.Buffer.Records.{
  Records, no_records, id_of, build_index, reindex, reindex_if, rebase_if, note_if, push, lookup_in,
  get_record_by_id, lookup_via, lookup_built, clear,
}

abbrev pub Tracks : ℕ → List Record → Option Index → Type 0
Tracks base xs none = Unit {0}
Tracks base xs (some m) = Indexes (own_key id_of) base xs m

pub record IsSound (s : Records) : Type 0 where
  pub roomy : s.base + length s.entries ≤ usize_max
  pub tracks : Tracks s.base s.entries s.by_id

build_index_lem :
    (s : Records)
    → s.base + length s.entries ≤ usize_max
    → Returns
        (build_index s)
        λ t. IsSound t × (t.entries ≡ s.entries) × (t.base ≡ s.base) × (is_some t.by_id ≡ true)
unfolding build_index
build_index_lem s room =
    let (m, run, h) = build_lem id_of s.base s.entries room in
    (record s { by_id = some m }, rw run, (record { roomy = room; tracks = h }, refl, refl, refl))

reindex_if_lem :
    (o : Option Index) (s : Records)
    → s.by_id ≡ o
    → length s.entries ≤ usize_max
    → s.base ≡ 0
    → Returns (reindex_if (is_some o) s) λ t. IsSound t × (t.entries ≡ s.entries) × (t.base ≡ 0)
unfolding reindex_if
reindex_if_lem none s e room z =
    (s, refl, (record { roomy = omega arith; tracks = rw e tt }, refl, z))
reindex_if_lem (some m) s e room z =
    let (t, run, (sound, same, base, _)) = build_index_lem s (omega arith) in
    (t, run, (sound, same, base ∙ z))

-- After the guard of `push` the next position is below `usize::MAX`.
rebase_if_lem :
    (s : Records)
    → IsSound s
    → length s.entries < usize_max
    → Returns
        (rebase_if (is_none_or (checked_add s.base (length s.entries)) (λ key. key == usize_max)) s)
        λ t. IsSound t × (t.entries ≡ s.entries) × (t.base + length t.entries < usize_max)
unfolding rebase_if reindex
rebase_if_lem s v room =
    elim (Bool-cases
      (is_none_or (checked_add s.base (length s.entries)) (λ key. key == usize_max))) [
        | inl full ↦
            let (t, run, (sound, same, base)) =
              reindex_if_lem s.by_id (record s { base = 0 }) refl (omega arith) refl in
            (t, rw full run, (sound, same, rw (base, same) (omega arith)))
        | inr free ↦ (s, rw free, (v, refl, ground arith))
      ]

note_if_lem :
    (base : ℕ) (xs : List Record) (r : Record) (o : Option Index)
    → base + length xs < usize_max
    → Tracks base xs o
    → Returns (note_if o r.id (base + length xs)) (Tracks base (xs ++ r ∷ []))
unfolding note_if
note_if_lem base xs r none room h = (none, refl, tt)
note_if_lem base xs r (some m) room h =
    let (m', run, h') = note_lem (own_key id_of) base r.id xs r m refl room h in
    (some m', rw run, h')

-- `push` appends: it does not panic, and keeps the invariant, whatever the positions reached.
pub push_lem :
    (s : Records) (r : Record)
    → IsSound s
    → length s.entries < usize_max
    → Returns (push s r) λ t. IsSound t × (t.entries ≡ s.entries ++ r ∷ [])
unfolding push
push_lem s r v room =
    let (t, run, (sound, same, low)) = rebase_if_lem s v room in
    let (m, run', h) = note_if_lem t.base t.entries r t.by_id low sound.tracks in
    (
      record t { entries = t.entries ++ r ∷ []; by_id = m },
      rw (run, ◌>>=◌, add_usize_lem t.base (length t.entries) (omega arith), run'),
      (record { roomy = omega (arith, length-append t.entries (r ∷ [])); tracks = h }, rw same),
    )

lookup_in_lem :
    (m : Index) (base : ℕ) (xs : List Record) (id : ℕ)
    → Indexes (own_key id_of) base xs m
    → lookup_in m base xs id ≡ ok (find? (λ r. r.id == id) xs)
unfolding lookup_in
lookup_in_lem m base xs id h =
    rw (h id, lookup_in, locate-position (own_key id_of) base id xs, find?-position) (ground arith)

-- The lookup in a store whose index is there.
indexed_lookup :
    (m : Index) (s : Records) (id : ℕ)
    → IsSound s
    → s.by_id ≡ some m
    → lookup_in m s.base s.entries id ≡ ok (find? (λ r. r.id == id) s.entries)
indexed_lookup m s id v e =
    lookup_in_lem m s.base s.entries id (subst (Tracks s.base s.entries) e v.tracks)

built_lookup :
    (s : Records) (id : ℕ)
    → IsSound s
    → is_some s.by_id ≡ true
    → lookup_built s id ≡ ok (s, find? (λ r. r.id == id) s.entries)
unfolding lookup_built
built_lookup s id v h = elim (Option-cases s.by_id) [
  | inl e ↦ cc (ap is_some e)
  | inr (m, e) ↦ rw (e, ◌>>=◌, indexed_lookup m s id v e)
]

-- What a lookup by identifier returns: the first retained record with it; the records stay.
abbrev pub Finds : Records → ℕ → Records × Option Record → Type 0
Finds s id (t, found) =
    IsSound t × (t.entries ≡ s.entries) × (found ≡ find? (λ r. r.id == id) s.entries)

lookup_via_lem :
    (o : Option Index) (s : Records) (id : ℕ)
    → s.by_id ≡ o
    → IsSound s
    → Returns (lookup_via o s id) (Finds s id)
unfolding lookup_via
lookup_via_lem (some m) s id e v =
    ((s, find? (λ r. r.id == id) s.entries), rw (indexed_lookup m s id v e), (v, refl, refl))
lookup_via_lem none s id e v =
    let (t, run, (sound, same, _, built)) = build_index_lem s v.roomy in
    (
      (t, find? (λ r. r.id == id) t.entries),
      rw run (built_lookup t id sound built),
      (sound, same, rw same),
    )

-- A lookup by identifier builds the index at most, and never panics.
pub get_record_by_id_lem :
    (s : Records) (id : ℕ) → IsSound s → Returns (get_record_by_id s id) (Finds s id)
unfolding get_record_by_id
get_record_by_id_lem s id v = lookup_via_lem s.by_id s id refl v

pub no_records-IsSound : IsSound no_records
no_records-IsSound = record { roomy = omega arith; tracks = tt }

clear-Tracks : (o : Option Index) → Tracks 0 [] (elim o [ none ↦ none | some m ↦ some no_keys ])
unfolding locate
clear-Tracks none = tt
clear-Tracks (some m) = λ id. refl

pub clear-IsSound : (s : Records) → IsSound (clear s)
unfolding clear
clear-IsSound s = record { roomy = omega arith; tracks = clear-Tracks s.by_id }
