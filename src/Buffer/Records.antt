-- ===== src/Buffer/Records.antt =====
-- `Records` of src/journal/buffer.rs: a deque of records with an index that is built at the first
-- lookup. A panic is a value (`Run`); the deque is a list, oldest first.
pub mod Sound
pub mod Trim
pub mod Vector
use eventline.Prelude.{
  ℕ, zero, suc, ◌+◌, ◌-◌, ◌≤◌, ◌<◌, ◌≡◌, refl, sym, ap, ◌∙◌, Bool, true, false, Option, none, some,
  List, [], ◌∷◌, ◌++◌, inl, inr, arith, ◌==◌, ltb, leb, if◌then◌else◌, Run, ok, panic, ◌>>=◌,
  unwrap, Returns, usize_max, add_usize, sub_usize, add_usize_lem, sub_usize_lem, checked_add,
  is_none_or, is_some, length, length-append, get_elem?, position, find?, drop, HashMap, insert,
  remove, no_keys, Option-cases, Bool-cases,
}
use eventline.Core.{Record}
use eventline.Buffer.Positions.{Position, Index, note, build}

pub record Records : Type 0 where
  pub entries : List Record
  pub by_id : Option Index
  pub base : ℕ

-- `Records::default()`.
abbrev pub no_records : Records
no_records = record { entries = []; by_id = none; base = 0 }

-- `r.id`
abbrev pub id_of : Record → ℕ
id_of r = r.id

unfoldable pub build_index : Records → Run Records
build_index s = do m ← build id_of s.base 0 s.entries no_keys; ok (record s { by_id = some m })

-- `if self.by_id.is_some() { self.build_index(); }`
reindex_if : Bool → Records → Run Records
unfolding build_index
reindex_if true s = build_index s
reindex_if false s = ok s

unfoldable pub reindex : Records → Run Records
unfolding reindex_if
reindex s = reindex_if (is_some s.by_id) (record s { base = 0 })

-- `index.entry(record.id)…` where there is an index.
note_if : Option Index → ℕ → ℕ → Run (Option Index)
note_if none id key = ok none
note_if (some m) id key = do m' ← note m id key; ok (some m')

-- The guard of `push`: the next logical position would reach `usize::MAX`.
rebase_if : Bool → Records → Run Records
unfolding reindex
rebase_if true s = reindex s
rebase_if false s = ok s

unfoldable pub push : Records → Record → Run Records
unfolding note_if rebase_if
push s r = do
  s' ← rebase_if (is_none_or (checked_add s.base (length s.entries)) (λ key. key == usize_max)) s
  key ← add_usize s'.base (length s'.entries)
  m ← note_if s'.by_id r.id key
  ok (record s' { entries = s'.entries ++ r ∷ []; by_id = m })

-- `position.first = self.base + …position(|r| r.id == record.id).unwrap()`, for a record with
-- other retained occurrences; an only occurrence leaves the index.
unfoldable pub forget : Option Index → ℕ → ℕ → List Record → Run (Option Index)
forget none id base rest = ok none
forget (some m) id base rest = do
  p ← unwrap (m id)
  if p.count == 1 then ok (some (remove m id)) else (do
    c ← sub_usize p.count 1
    i ← unwrap (position (λ r. r.id == id) rest)
    f ← add_usize base i
    ok (some (insert m id (record { first = f; count = c }))))

-- `while self.entries.len() > max { … pop_front … }`
unfoldable pub trim_loop : ℕ → List Record → Option Index → ℕ → Run Records
unfolding forget
trim_loop max [] m base = ok (record { entries = []; by_id = m; base = base })
trim_loop max (r ∷ rest) m base =
    if ltb max (length (r ∷ rest))
    then (do base' ← add_usize base 1; m' ← forget m r.id base' rest; trim_loop max rest m' base')
    else ok (record { entries = r ∷ rest; by_id = m; base = base })

-- `if self.entries.is_empty() { self.base = 0; }`
abbrev rebase_empty : Records → Records
rebase_empty s = record s { base = if length s.entries == 0 then 0 else s.base }

unfoldable pub trim : ℕ → Records → Run Records
unfolding trim_loop
trim max s = do s' ← trim_loop max s.entries s.by_id s.base; ok (rebase_empty s')

-- `Buffer::get_record`, `Buffer::records_len` and `Buffer::records_snapshot`.
unfoldable pub get_record : Records → ℕ → Option Record
get_record s idx = get_elem? s.entries idx

unfoldable pub records_len : Records → ℕ
records_len s = length s.entries

unfoldable pub records_snapshot : Records → List Record
records_snapshot s = s.entries

-- `let key = index.get(&id)?.first; entries.get(key - base).cloned()`
unfoldable pub lookup_in : Index → ℕ → List Record → ℕ → Run (Option Record)
lookup_in m base entries id = elim (m id) [
  | none ↦ ok none
  | some p ↦ do i ← sub_usize p.first base; ok (get_elem? entries i)
]

-- `records.by_id.as_ref().unwrap()` after the index was built.
lookup_built : Records → ℕ → Run (Records × Option Record)
lookup_built s id = do m ← unwrap s.by_id; r ← lookup_in m s.base s.entries id; ok (s, r)

-- The two branches of `Buffer::get_record_by_id`: with an index, and building it first.
lookup_via : Option Index → Records → ℕ → Run (Records × Option Record)
unfolding lookup_built
lookup_via (some m) s id = do r ← lookup_in m s.base s.entries id; ok (s, r)
lookup_via none s id = do s' ← build_index s; lookup_built s' id

-- `Buffer::get_record_by_id`: the first query builds the index.
unfoldable pub get_record_by_id : Records → ℕ → Run (Records × Option Record)
unfolding lookup_via
get_record_by_id s id = lookup_via s.by_id s id

-- The record half of `Buffer::clear`.
unfoldable pub clear : Records → Records
clear s = record {
  entries = [];
  by_id = elim s.by_id [ none ↦ none | some m ↦ some no_keys ];
  base = 0;
}
