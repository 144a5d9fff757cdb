-- ===== src/Buffer/Positions/Locate.antt =====
-- What `locate` says of appended lists, and how it relates to a search of the entries.
use eventline.Prelude.{
  ℕ, suc, ◌+◌, ◌≤◌, ◌<◌, ◌≡◌, refl, Option, none, some, List, [], ◌∷◌, ◌++◌, arith, if◌then◌else◌,
  length, position,
}
use eventline.Buffer.Positions.{Position, holds, count, locate}

module _ {ℓ} {A : Type ℓ} (key : A → Option ℕ) where
  pub count-le-length : (id : ℕ) (xs : List A) → count key id xs ≤ length xs
  unfolding count
  count-le-length id [] = omega arith
  count-le-length id (a ∷ xs) = ground (arith, count-le-length id xs)

  -- The position is that of the first entry with the identifier.
  pub locate-position :
      (base id : ℕ) (xs : List A)
      → locate key base id xs ≡ elim (position (holds key id) xs) [
        | none ↦ none
        | some i ↦ some (record { first = base + i; count = count key id xs })
      ]
  unfolding locate
  locate-position base id [] = refl
  locate-position base id (a ∷ xs) = ground (arith, locate-position (suc base) id xs)

  pub locate-count :
      (base id : ℕ) (xs : List A) (p : Position)
      → locate key base id xs ≡ some p
      → p.count ≡ count key id xs
  unfolding locate
  locate-count base id [] p e = cc
  locate-count base id (a ∷ xs) p e = ground (arith, locate-count (suc base) id xs p)

  pub locate-none : (base id : ℕ) (xs : List A) → locate key base id xs ≡ none → count key id xs ≡ 0
  unfolding locate
  locate-none base id [] e = refl
  locate-none base id (a ∷ xs) e = ground (arith, locate-none (suc base) id xs)

  count-append :
      (id : ℕ) (xs : List A) (a : A)
      → count key id (xs ++ a ∷ []) ≡ count key id xs + (if holds key id a then 1 else 0)
  unfolding count
  count-append id [] a = ground arith
  count-append id (x ∷ xs) a = ground (arith, count-append id xs a)

  pub locate-append :
      (base id : ℕ) (xs : List A) (a : A)
      → locate key base id (xs ++ a ∷ []) ≡ (
          if holds key id a
          then elim (locate key base id xs) [
            | none ↦ some (record { first = base + length xs; count = 1 })
            | some p ↦ some (record p { count = p.count + 1 })
          ]
          else locate key base id xs)
  unfolding locate
  locate-append base id [] a = ground arith
  locate-append base id (x ∷ xs) a =
      ground (arith, locate-append (suc base) id xs a, count-append id xs a)

  -- What the outcome of a search says of the number of entries.
  abbrev pub Counted : ℕ → List A → Option ℕ → Type 0
  Counted id xs none = count key id xs ≡ 0
  Counted id xs (some i) = (1 ≤ count key id xs) × (i < length xs)

  pub count-position : (id : ℕ) (xs : List A) → Counted id xs (position (holds key id) xs)
  unfolding count
  count-position id [] = refl
  count-position id (a ∷ xs) = ground (arith, count-position id xs)

  pub count-append_list :
      (id : ℕ) (xs ys : List A) → count key id (xs ++ ys) ≡ count key id xs + count key id ys
  unfolding count
  count-append_list id [] ys = omega arith
  count-append_list id (a ∷ xs) ys = ground (arith, count-append_list id xs ys)
