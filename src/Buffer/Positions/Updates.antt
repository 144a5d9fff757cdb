-- ===== src/Buffer/Positions/Updates.antt =====
-- The index operations keep an index right: noting an appended entry, building from scratch.
use eventline.Prelude.{
  ℕ, ◌+◌, ◌≤◌, ◌<◌, ◌≡◌, refl, Option, some, List, [], ◌∷◌, ◌++◌, inl, inr, arith, Returns,
  usize_max, add_usize_lem, length-append, length, insert, no_keys, Option-cases,
}
use mathlib.Core.List.{append_assoc, append-nil}
use eventline.Buffer.Positions.{Index, locate, Indexes, note, build, counted}
use eventline.Buffer.Positions.Locate.{count-le-length, locate-count, locate-append}

module _ {ℓ} {A : Type ℓ} (key : A → Option ℕ) where
  -- Appending an entry and noting it keeps the index right, and cannot overflow a count.
  pub note_lem :
      (base id : ℕ) (xs : List A) (a : A) (m : Index)
      → key a ≡ some id
      → base + length xs < usize_max
      → Indexes key base xs m
      → Returns (note m id (base + length xs)) (Indexes key base (xs ++ a ∷ []))
  unfolding note counted
  note_lem base id xs a m k room h = elim (Option-cases (locate key base id xs)) [
    | inl e ↦ (
      insert m id (record { first = base + length xs; count = 1 }),
      rw (h id, note, counted, e),
      λ j. rw (locate-append key base j xs a) (ground (arith, h j, e)),
    )
    | inr (p, e) ↦ (
      insert m id (record p { count = p.count + 1 }),
      ground (arith, h id, locate-count key base id xs p e, count-le-length key id xs),
      λ j. rw (locate-append key base j xs a) (ground (arith, h j, e)),
    )
  ]

module _ {ℓ} {A : Type ℓ} (id_of : A → ℕ) where
  abbrev pub own_key : A → Option ℕ
  own_key a = some (id_of a)

  build_from :
      (base : ℕ) (ys xs : List A) (m : Index)
      → base + length ys + length xs ≤ usize_max
      → Indexes own_key base ys m
      → Returns (build id_of base (length ys) xs m) (Indexes own_key base (ys ++ xs))
  unfolding build
  build_from base ys [] m room h = (m, refl, rw append-nil h)
  build_from base ys (x ∷ xs) m room h =
      let (m', run, h') = note_lem own_key base (id_of x) ys x m refl (omega arith) h in
      let (m'', run', h'') =
        build_from base (ys ++ x ∷ []) xs m' (omega (arith, length-append ys (x ∷ []))) h' in
      (
        m'',
        rw (add_usize_lem base (length ys) (omega arith), run, ← length-append ys (x ∷ [])) run',
        rw append_assoc at h'',
      )

  -- Building an index from nothing does not overflow, and gives the right one.
  pub build_lem :
      (base : ℕ) (xs : List A)
      → base + length xs ≤ usize_max
      → Returns (build id_of base 0 xs no_keys) (Indexes own_key base xs)
  unfolding locate
  build_lem base xs room = build_from base [] xs no_keys (omega arith) (λ id. refl)
