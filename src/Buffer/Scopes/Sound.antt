-- ===== src/Buffer/Scopes/Sound.antt =====
-- The invariant of the scope store, kept by `push` and `compact`; a lookup by identifier.
use eventline.Prelude.{
  ℕ, suc, ◌+◌, ◌≤◌, ◌<◌, ◌≡◌, refl, sym, ap, ◌∙◌, Option, none, some, List, [], ◌∷◌, ◌++◌, inl, inr,
  map, arith, ◌==◌, if◌then◌else◌, ok, ◌>>=◌, Returns, usize_max, add_usize_lem, checked_add,
  is_none_or, is_some, length, length-append, filter, position, find?, no_keys, Bool-cases,
}
use native.Mathlib.Nat.{zero-add}
use mathlib.Core.List.{append_assoc, append-nil}
use eventline.Buffer.Positions.{Index, note, Indexes, locate, holds}
use eventline.Buffer.Positions.Locate.{locate-position}
use eventline.Buffer.Positions.Updates.{note_lem}
use eventline.Buffer.Scopes.{
  BufferedScope, Scopes, no_scopes, slot_id, is_closed, set_insert, live, compact_loop, compact,
  compact_if, push, slot_at, place, get,
}
use eventline.Buffer.Scopes.Slots.{closed_keys, live-append, length-live-le}

pub record IsSound (s : Scopes) : Type 0 where
  pub roomy : s.base + length s.entries ≤ usize_max
  pub indexed : Indexes slot_id s.base s.entries s.by_id
  pub closed : s.exited ≡ closed_keys s.base s.entries
  pub counted : s.len ≡ length (live s.entries)

closed_keys-append :
    (base : ℕ) (slots : List (Option BufferedScope)) (b : BufferedScope)
    → closed_keys base (slots ++ some b ∷ []) ≡ (
        if is_closed b
        then set_insert (base + length slots) (closed_keys base slots)
        else closed_keys base slots)
unfolding closed_keys set_insert
closed_keys-append base [] b = ground arith
closed_keys-append base (none ∷ slots) b = ground (arith, closed_keys-append (suc base) slots b)
closed_keys-append base (some c ∷ slots) b = ground (arith, closed_keys-append (suc base) slots b)

filter-live : (slots : List (Option BufferedScope)) → filter is_some slots ≡ map some (live slots)
unfolding live
filter-live [] = refl
filter-live (none ∷ slots) = filter-live slots
filter-live (some b ∷ slots) = ap (◌∷◌ (some b)) (filter-live slots)

live-map : (bs : List BufferedScope) → live (map some bs) ≡ bs
unfolding live
live-map [] = refl
live-map (b ∷ bs) = ap (◌∷◌ b) (live-map bs)

length-map-some : (bs : List BufferedScope) → length (map some bs) ≡ length bs
length-map-some [] = refl
length-map-some (b ∷ bs) = ap suc (length-map-some bs)

compact_loop_lem :
    (done : List (Option BufferedScope)) (bs : List BufferedScope) (m : Index)
    → length done + length bs ≤ usize_max
    → Indexes slot_id 0 done m
    → Returns (compact_loop (length done) (map some bs) m (closed_keys 0 done)) λ (m', c).
      Indexes slot_id 0 (done ++ map some bs) m' × (c ≡ closed_keys 0 (done ++ map some bs))
unfolding compact_loop
compact_loop_lem done [] m room h =
    ((m, closed_keys 0 done), refl, (rw append-nil h, rw append-nil))
compact_loop_lem done (b ∷ bs) m room h =
    let (m', run, h') = note_lem slot_id 0 b.scope.id done (some b) m refl (omega arith) h in
    let ((m'', c), run', (h'', e)) =
      compact_loop_lem (done ++ some b ∷ []) bs m' (omega (arith, length-append done (some b ∷ [])))
        h' in
    let start : note m b.scope.id (length done) ≡ ok m' = rw zero-add at run in
    let keys : closed_keys 0 (done ++ some b ∷ []) ≡ (
        if is_closed b then set_insert (length done) (closed_keys 0 done) else closed_keys 0 done) =
      rw zero-add at (closed_keys-append 0 done b) in
    (
      (m'', c),
      rw (start, ◌>>=◌, ← keys, ← length-append done (some b ∷ [])) run',
      (rw append_assoc at h'', rw append_assoc at e),
    )

-- `compact` keeps the scopes and their order, gives up every vacant slot, and never panics.
pub compact_lem :
    (s : Scopes)
    → IsSound s
    → Returns (compact s) λ t.
      IsSound t × (live t.entries ≡ live s.entries) × (t.base ≡ 0) × (length t.entries ≡ t.len)
unfolding compact closed_keys locate
compact_lem s v =
    let ((m, c), run, (h, keys)) =
      compact_loop_lem [] (live s.entries) no_keys (omega (arith, length-live-le s.entries))
        (λ id. refl) in
    (
      record s { entries = map some (live s.entries); base = 0; by_id = m; exited = c },
      rw (filter-live s.entries, run),
      (
        record {
          roomy = omega (arith, length-map-some (live s.entries), length-live-le s.entries);
          indexed = h;
          closed = keys;
          counted = rw live-map v.counted;
        },
        live-map (live s.entries),
        refl,
        length-map-some (live s.entries) ∙ sym v.counted,
      ),
    )

-- After the guard of `push` the next position is below `usize::MAX`.
compact_if_lem :
    (s : Scopes)
    → IsSound s
    → length s.entries < usize_max
    → Returns
        (compact_if
          (is_none_or (checked_add s.base (length s.entries)) (λ key. key == usize_max))
          s)
        λ t.
          IsSound t
          × (live t.entries ≡ live s.entries)
          × (t.base + length t.entries < usize_max)
          × (length t.entries ≤ length s.entries)
unfolding compact_if
compact_if_lem s v room =
    elim (Bool-cases
      (is_none_or (checked_add s.base (length s.entries)) (λ key. key == usize_max))) [
        | inl full ↦
            let (t, run, (sound, same, base, packed)) = compact_lem s v in
            let short : length t.entries ≤ length s.entries =
              omega (arith, v.counted, ap length same, sound.counted, length-live-le s.entries) in
            (t, rw full run, (sound, same, omega arith, short))
        | inr free ↦ (s, rw free, (v, refl, ground (arith, v.roomy), omega arith))
      ]

-- `push` appends to the scopes: it does not panic, and keeps the invariant.
pub push_lem :
    (s : Scopes) (b : BufferedScope)
    → IsSound s
    → length s.entries < usize_max
    → Returns (push s b) λ t.
      IsSound t
      × (live t.entries ≡ live s.entries ++ b ∷ [])
      × (length t.entries ≤ length s.entries + 1)
unfolding push live
push_lem s b v room =
    let (t, run, (sound, same, low, short)) = compact_if_lem s v room in
    let (m, run', h) =
      note_lem slot_id t.base b.scope.id t.entries (some b) t.by_id refl low sound.indexed in
    let shown : live (t.entries ++ some b ∷ []) ≡ live s.entries ++ b ∷ [] =
      live-append t.entries (some b ∷ []) ∙ ap (λ bs. bs ++ b ∷ []) same in
    let fits : t.len + 1 ≤ usize_max = omega (arith, sound.counted, length-live-le t.entries) in
    (
      record t {
        entries = t.entries ++ some b ∷ [];
        by_id = m;
        exited = if is_closed b then set_insert (t.base + length t.entries) t.exited else t.exited;
        len = t.len + 1;
      },
      rw (
        run,
        ◌>>=◌,
        add_usize_lem t.base (length t.entries) (omega arith),
        run',
        add_usize_lem t.len 1 fits,
      ),
      (
        record {
          roomy = omega (arith, length-append t.entries (some b ∷ []));
          indexed = h;
          closed = rw (sound.closed, closed_keys-append t.base t.entries b);
          counted = rw (shown, sound.counted, same) (sym (length-append (live s.entries) (b ∷ [])));
        },
        shown,
        omega (arith, length-append t.entries (some b ∷ [])),
      ),
    )

pub slot-position :
    (id : ℕ) (slots : List (Option BufferedScope))
    → elim (position (holds slot_id id) slots) [ none ↦ none | some i ↦ slot_at slots i ]
      ≡ find? (λ b. b.scope.id == id) (live slots)
unfolding live
slot-position id [] = refl
slot-position id (none ∷ slots) = ground (arith, slot-position id slots)
slot-position id (some b ∷ slots) = ground (arith, slot-position id slots)

-- The index leads to the first slot with the identifier.
pub place_lem :
    (s : Scopes) (id : ℕ) → IsSound s → place s id ≡ ok (position (holds slot_id id) s.entries)
unfolding place
place_lem s id v =
    rw (v.indexed id, place, locate-position slot_id s.base id s.entries) (ground arith)

-- A lookup by identifier finds the first retained scope with it, and never panics.
pub get_lem :
    (s : Scopes) (id : ℕ)
    → IsSound s
    → get s id ≡ ok (find? (λ b. b.scope.id == id) (live s.entries))
unfolding get
get_lem s id v = rw (place_lem s id v, ◌>>=◌) (ap ok (slot-position id s.entries))

pub no_scopes-IsSound : IsSound no_scopes
unfolding locate closed_keys live
no_scopes-IsSound = record {
  roomy = omega arith;
  indexed = λ id. refl;
  closed = refl;
  counted = refl;
}
