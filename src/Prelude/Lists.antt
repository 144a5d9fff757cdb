-- ===== src/Prelude/Lists.antt =====
-- Lists measured and indexed by native numbers, under the library's names, and maps as functions.
use Prim.Native.Nat.{ℕ, zero, suc, ◌+◌, ◌-◌, ◌<◌}
use mathlib.Core.Path.{◌≡◌, refl, ap}
use mathlib.Core.Bool.{Bool, true}
use mathlib.Core.List.{List, [], ◌∷◌, ◌++◌}
use mathlib.Core.Option.{Option, none, some}
use native.Mathlib.Omega.{arith}
use eventline.Prelude.Tests.{if◌then◌else◌, ◌==◌, Bool-cases}
use mathlib.Core.Logic.{inl, inr}

module _ {ℓ} {A : Type ℓ} where
  abbrev pub length : List A → ℕ
  length [] = 0
  length (x ∷ xs) = suc (length xs)

  abbrev pub get_elem? : List A → ℕ → Option A
  get_elem? [] i = none
  get_elem? (x ∷ xs) zero = some x
  get_elem? (x ∷ xs) (suc i) = get_elem? xs i

  abbrev pub set : List A → ℕ → A → List A
  set [] i v = []
  set (x ∷ xs) zero v = v ∷ xs
  set (x ∷ xs) (suc i) v = x ∷ set xs i v

  abbrev pub take : ℕ → List A → List A
  take zero xs = []
  take (suc n) [] = []
  take (suc n) (x ∷ xs) = x ∷ take n xs

  abbrev pub drop : ℕ → List A → List A
  drop zero xs = xs
  drop (suc n) [] = []
  drop (suc n) (x ∷ xs) = drop n xs

  pub length-append : (xs ys : List A) → length (xs ++ ys) ≡ length xs + length ys
  length-append [] ys = omega arith
  length-append (x ∷ xs) ys = omega (arith, length-append xs ys)

  pub length-set : (xs : List A) (i : ℕ) (v : A) → length (set xs i v) ≡ length xs
  length-set [] i v = refl
  length-set (x ∷ xs) zero v = refl
  length-set (x ∷ xs) (suc i) v = ap suc (length-set xs i v)

  pub length-drop : (n : ℕ) (xs : List A) → length (drop n xs) ≡ length xs - n
  length-drop zero xs = omega arith
  length-drop (suc n) [] = omega arith
  length-drop (suc n) (x ∷ xs) = omega (arith, length-drop n xs)

  -- Rust's `iter().filter(p)`, `iter().find(p)` and `iter().position(p)`, by Boolean tests.
  abbrev pub filter : (A → Bool) → List A → List A
  filter p [] = []
  filter p (x ∷ xs) = if p x then x ∷ filter p xs else filter p xs

  abbrev pub find? : (A → Bool) → List A → Option A
  find? p [] = none
  find? p (x ∷ xs) = if p x then some x else find? p xs

  abbrev pub position : (A → Bool) → List A → Option ℕ
  position p [] = none
  position p (x ∷ xs) =
      if p x then some 0 else elim (position p xs) [ none ↦ none | some i ↦ some (suc i) ]

-- A hash map that is only read and written at keys.
abbrev pub HashMap {ℓ} : Type ℓ → Type ℓ
HashMap V = ℕ → Option V

module _ {ℓ} {V : Type ℓ} where
  abbrev pub no_keys : HashMap V
  no_keys k = none

  abbrev pub insert : HashMap V → ℕ → V → HashMap V
  insert m k v j = if k == j then some v else m j

  abbrev pub remove : HashMap V → ℕ → HashMap V
  remove m k j = if k == j then none else m j

module _ {ℓ} {A : Type ℓ} where
  pub find?-position :
      (p : A → Bool) (xs : List A)
      → find? p xs ≡ elim (position p xs) [ none ↦ none | some i ↦ get_elem? xs i ]
  find?-position p [] = refl
  find?-position p (x ∷ xs) = ground (arith, find?-position p xs)

  pub position-lt-length :
      (p : A → Bool) (xs : List A) (i : ℕ) → position p xs ≡ some i → i < length xs
  position-lt-length p [] i e = cc
  position-lt-length p (x ∷ xs) zero e = omega arith
  position-lt-length p (x ∷ xs) (suc i) e = ground (arith, position-lt-length p xs i)

  pub position-append :
      (p : A → Bool) (xs ys : List A)
      → position p (xs ++ ys) ≡ elim (position p xs) [
        | some i ↦ some i
        | none ↦ elim (position p ys) [ none ↦ none | some j ↦ some (length xs + j) ]
      ]
  position-append p [] ys = ground arith
  position-append p (x ∷ xs) ys = ground (arith, position-append p xs ys)

  -- Reading and writing just behind a prefix.
  pub get_elem?-middle :
      (xs : List A) (y : A) (ys : List A) → get_elem? (xs ++ y ∷ ys) (length xs) ≡ some y
  get_elem?-middle [] y ys = refl
  get_elem?-middle (x ∷ xs) y ys = get_elem?-middle xs y ys

  pub set-middle :
      (xs : List A) (y z : A) (ys : List A) → set (xs ++ y ∷ ys) (length xs) z ≡ xs ++ z ∷ ys
  set-middle [] y z ys = refl
  set-middle (x ∷ xs) y z ys = ap (◌∷◌ x) (set-middle xs y z ys)

  -- A search in a list whose last element passes finds something.
  pub find?-append_last :
      (p : A → Bool) (xs : List A) (y : A)
      → p y ≡ true
      → (z : A) × (find? p (xs ++ y ∷ []) ≡ some z)
  find?-append_last p [] y h = (y, rw h)
  find?-append_last p (x ∷ xs) y h = elim (Bool-cases (p x)) [
    | inl e ↦ (x, rw e)
    | inr e ↦ let (z, w) = find?-append_last p xs y h in (z, rw e w)
  ]
