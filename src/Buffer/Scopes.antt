-- ===== src/Buffer/Scopes.antt =====
-- `Scopes` of src/journal/buffer.rs: slots for scopes, oldest first, with vacant ones where a
-- closed scope was evicted behind an open one; an index; and the positions of the closed scopes.
-- Instants and durations are nanoseconds; the clocks' readings are arguments.
pub mod Slots
pub mod Sound
pub mod Evict
pub mod Trim
pub mod Exit
pub mod Update
pub mod Closing
pub mod Vector
use eventline.Prelude.{
  ℕ, zero, suc, ◌+◌, ◌-◌, ◌≤◌, ◌<◌, ◌≡◌, refl, sym, ap, ◌∙◌, Bool, true, false, Option, none, some,
  List, [], ◌∷◌, ◌++◌, inl, inr, arith, ◌==◌, ltb, leb, if◌then◌else◌, Run, ok, panic, ◌>>=◌,
  unwrap, Returns, usize_max, add_usize, sub_usize, add_usize_lem, sub_usize_lem, checked_add,
  is_none_or, is_some, length, length-append, get_elem?, set, filter, ◌&&◌, position, find?, drop,
  HashMap, insert, remove, no_keys, Option-cases, Bool-cases,
}
use eventline.Core.{Scope, ExitMessages}
use eventline.Buffer.Positions.{Position, Index, note, holds}

pub record ScopeClock : Type 0 where
  pub started_at : ℕ
  pub finished : Option ℕ

pub record BufferedScope : Type 0 where
  pub scope : Scope
  pub clock : Option ScopeClock

pub record Scopes : Type 0 where
  pub entries : List (Option BufferedScope)
  pub by_id : Index
  -- A `BTreeSet<usize>`: ascending, without repetition.
  pub exited : List ℕ
  pub base : ℕ
  pub len : ℕ

-- `Scopes::default()`.
abbrev pub no_scopes : Scopes
no_scopes = record { entries = []; by_id = no_keys; exited = []; base = 0; len = 0 }

-- The identifier of a slot, if it is taken.
abbrev pub slot_id : Option BufferedScope → Option ℕ
slot_id none = none
slot_id (some b) = some b.scope.id

abbrev pub is_closed : BufferedScope → Bool
is_closed b = is_some b.scope.exited_at

-- `BTreeSet::insert`.
unfoldable pub set_insert : ℕ → List ℕ → List ℕ
set_insert k [] = k ∷ []
set_insert k (x ∷ xs) =
    if ltb k x then k ∷ x ∷ xs else if k == x then x ∷ xs else x ∷ set_insert k xs

-- The loop of `compact`, over the slots that were retained.
unfoldable pub compact_loop :
    ℕ → List (Option BufferedScope) → Index → List ℕ → Run (Index × List ℕ)
compact_loop i [] m closed = ok (m, closed)
compact_loop i (slot ∷ slots) m closed = do
  b ← unwrap slot
  m' ← note m b.scope.id i
  compact_loop (i + 1) slots m' (if is_closed b then set_insert i closed else closed)

unfoldable pub compact : Scopes → Run Scopes
unfolding compact_loop
compact s = do
  let entries = filter is_some s.entries
  (m, closed) ← compact_loop 0 entries no_keys []
  ok (record s { entries = entries; base = 0; by_id = m; exited = closed })

-- The guard of `push`.
compact_if : Bool → Scopes → Run Scopes
compact_if true s = compact s
compact_if false s = ok s

unfoldable pub push : Scopes → BufferedScope → Run Scopes
unfolding compact_if
push s b = do
  s' ← compact_if (is_none_or (checked_add s.base (length s.entries)) (λ key. key == usize_max)) s
  key ← add_usize s'.base (length s'.entries)
  m ← note s'.by_id b.scope.id key
  len' ← add_usize s'.len 1
  ok (record s' {
    entries = s'.entries ++ some b ∷ [];
    by_id = m;
    exited = if is_closed b then set_insert key s'.exited else s'.exited;
    len = len';
  })

-- `self.entries.get(i)?.as_ref()`
abbrev pub slot_at : List (Option BufferedScope) → ℕ → Option BufferedScope
slot_at slots i = elim (get_elem? slots i) [ none ↦ none | some slot ↦ slot ]

-- The place of a scope among the slots, by the index.
unfoldable pub place : Scopes → ℕ → Run (Option ℕ)
place s id = elim (s.by_id id) [
  | none ↦ ok none
  | some p ↦ do i ← sub_usize p.first s.base; ok (some i)
]

unfoldable pub get : Scopes → ℕ → Run (Option BufferedScope)
unfolding place
get s id = do i ← place s id; ok (elim i [ none ↦ none | some i ↦ slot_at s.entries i ])

-- `Scopes::iter`: the scopes of the taken slots.
unfoldable pub live : List (Option BufferedScope) → List BufferedScope
live [] = []
live (none ∷ slots) = live slots
live (some b ∷ slots) = b ∷ live slots

-- The index after the scope at position `key` was taken out; `slots` are those without it.
unfoldable pub release : Index → ℕ → ℕ → ℕ → List (Option BufferedScope) → Run Index
release m id key base slots = do
  p ← unwrap (m id)
  if p.count == 1 then ok (remove m id) else (do
    c ← sub_usize p.count 1
    if p.first == key
        then (do
          j ← unwrap (position (holds slot_id id) slots)
          f ← add_usize base j
          ok (insert m id (record { first = f; count = c })))
        else ok (insert m id (record p { count = c })))

-- `while self.exited.len() > max { … pop_first … }`; the head of the list is the first position.
unfoldable pub evict_loop : ℕ → List ℕ → Scopes → Run Scopes
evict_loop max [] s = ok (record s { exited = [] })
evict_loop max (key ∷ keys) s =
    if ltb max (length (key ∷ keys))
    then (do
      i ← sub_usize key s.base
      slot ← unwrap (get_elem? s.entries i)
      b ← unwrap slot
      let slots = set s.entries i none
      len' ← sub_usize s.len 1
      m ← release s.by_id b.scope.id key s.base slots
      evict_loop max keys (record s { entries = slots; by_id = m; len = len' }))
    else ok (record s { exited = key ∷ keys })

-- `while self.entries.front().is_some_and(Option::is_none) { … pop_front … }`
unfoldable pub drop_vacant : List (Option BufferedScope) → ℕ → Run (List (Option BufferedScope) × ℕ)
drop_vacant [] base = ok ([], base)
drop_vacant (none ∷ slots) base = do base' ← add_usize base 1; drop_vacant slots base'
drop_vacant (some b ∷ slots) base = ok (some b ∷ slots, base)

-- A long-lived open scope must not pin unbounded vacant slots.
compact_sparse : Scopes → Run Scopes
compact_sparse s = do
  vacant ← sub_usize (length s.entries) s.len
  if ltb s.len vacant then compact s else ok s

-- The end of `trim`.
unfoldable pub settle : Scopes → Run Scopes
unfolding compact_sparse
settle s =
    if length s.entries == 0
    then ok (record s { base = 0 })
    else if ltb 64 (length s.entries)
    then compact_sparse s
    else ok s

unfoldable pub trim : ℕ → Scopes → Run Scopes
trim max s = do
  t ← evict_loop max s.exited s
  (slots, base) ← drop_vacant t.entries t.base
  settle (record t { entries = slots; base = base })
