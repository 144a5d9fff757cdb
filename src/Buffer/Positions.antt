-- ===== src/Buffer/Positions.antt =====
-- The index from an identifier to the logical position of its first retained entry and to the
-- number of its retained entries, which the record store and the scope store both keep
-- (src/journal/buffer.rs). An entry has a key, or none where its slot is vacant.
pub mod Locate
pub mod Updates
use eventline.Prelude.{
  ℕ, zero, suc, ◌+◌, ◌-◌, ◌≤◌, ◌<◌, ◌≡◌, refl, ap, Bool, true, false, Option, none, some, List, [],
  ◌∷◌, ◌++◌, inl, inr, arith, ◌==◌, if◌then◌else◌, Run, ok, panic, ◌>>=◌, unwrap, Returns,
  usize_max, add_usize, sub_usize, length, get_elem?, position, find?, HashMap, insert, remove,
  no_keys, Option-cases, Bool-cases,
}

pub record Position : Type 0 where
  pub first : ℕ
  pub count : ℕ

abbrev pub Index : Type 0
Index = HashMap Position

counted : Option Position → ℕ → Run Position
counted none key = ok (record { first = key; count = 1 })
counted (some p) key = do c ← add_usize p.count 1; ok (record p { count = c })

-- `index.entry(id).and_modify(|p| p.count += 1).or_insert(Position { first: key, count: 1 })`
unfoldable pub note : Index → ℕ → ℕ → Run Index
unfolding counted
note m id key = do p ← counted (m id) key; ok (insert m id p)

module _ {ℓ} {A : Type ℓ} (key : A → Option ℕ) where
  -- Whether the entry has this identifier.
  abbrev pub holds : ℕ → A → Bool
  holds id a = elim (key a) [ none ↦ false | some k ↦ k == id ]

  unfoldable pub count : ℕ → List A → ℕ
  count id [] = 0
  count id (a ∷ xs) = if holds id a then suc (count id xs) else count id xs

  -- What an index has to say of an identifier, when the first entry has logical position `base`.
  unfoldable pub locate : ℕ → ℕ → List A → Option Position
  unfolding count
  locate base id [] = none
  locate base id (a ∷ xs) =
      if holds id a
      then some (record { first = base; count = suc (count id xs) })
      else locate (suc base) id xs

  abbrev pub Indexes : ℕ → List A → Index → Type 0
  Indexes base xs m = (id : ℕ) → m id ≡ locate base id xs

-- `Records::build_index`: every entry is noted, in order; `i` is the enumeration index.
unfoldable pub build {ℓ} : {A : Type ℓ} → (A → ℕ) → ℕ → ℕ → List A → Index → Run Index
build id_of base i [] m = ok m
build id_of base i (a ∷ xs) m = do
  k ← add_usize base i
  m' ← note m (id_of a) k
  build id_of base (i + 1) xs m'
