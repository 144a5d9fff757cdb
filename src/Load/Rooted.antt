-- ===== src/Load/Rooted.antt =====
-- Scopes whose ancestors end at a root, and what cutting a parent link (`finish` of src/replay/load.rs)
-- does to them.
use eventline.Prelude.{
  ℕ, zero, suc, ◌≡◌, refl, ◌∙◌, false, Option, none, some, List, [], ◌∷◌, inl, inr, arith, ◌==◌,
  get_elem?, position, subst, find?, HashMap, Bool-cases, ==_iff,
}
use eventline.Core.{Scope}
use eventline.Load.Finish.{cut_at}

abbrev pub find_id : ℕ → List Scope → Option Scope
find_id id = find? (λ s. s.id == id)

abbrev pub position_id : ℕ → List Scope → Option ℕ
position_id id = position (λ s. s.id == id)

-- The map of a builder: the place of the first scope with an identifier.
abbrev pub IsIndexed : HashMap ℕ → List Scope → Type 0
IsIndexed index scopes = (id : ℕ) → index id ≡ position_id id scopes

-- From the scope with this identifier, the parents lead to a scope without a parent.
pub data Rooted (scopes : List Scope) : ℕ → Type 0 where
  root : (id : ℕ) (s : Scope) → find_id id scopes ≡ some s → s.parent ≡ none → Rooted scopes id
  under :
      (id p : ℕ) (s : Scope)
      → find_id id scopes ≡ some s
      → s.parent ≡ some p
      → Rooted scopes p
      → Rooted scopes id

-- The scope at its place.
pub at_position :
    (id i : ℕ) (scopes : List Scope)
    → position_id id scopes ≡ some i
    → (s : Scope) × (get_elem? scopes i ≡ some s) × (s.id ≡ id) × (find_id id scopes ≡ some s)
at_position id i [] e = cc
at_position id zero (s ∷ scopes) e = (s, refl, ground (arith, e), ground (arith, e))
at_position id (suc i) (t ∷ scopes) e =
    let (s, at, same, found) = at_position id i scopes (ground (arith, e)) in
    (s, at, same, ground (arith, e, found))

pub position-cut :
    (j i : ℕ) (s : Scope) (scopes : List Scope)
    → get_elem? scopes i ≡ some s
    → position_id j (cut_at scopes i s) ≡ position_id j scopes
position-cut j i s [] e = refl
position-cut j zero s (t ∷ scopes) e = ground (arith, e)
position-cut j (suc i) s (t ∷ scopes) e = ground (arith, position-cut j i s scopes e)

pub find-cut_other :
    (j i : ℕ) (s : Scope) (scopes : List Scope)
    → get_elem? scopes i ≡ some s
    → (s.id == j) ≡ false
    → find_id j (cut_at scopes i s) ≡ find_id j scopes
find-cut_other j i s [] e apart = refl
find-cut_other j zero s (t ∷ scopes) e apart = ground (arith, e, apart)
find-cut_other j (suc i) s (t ∷ scopes) e apart =
    ground (arith, find-cut_other j i s scopes e apart)

pub find-cut_same :
    (id i : ℕ) (s : Scope) (scopes : List Scope)
    → position_id id scopes ≡ some i
    → get_elem? scopes i ≡ some s
    → find_id id (cut_at scopes i s) ≡ some (record s { parent = none })
find-cut_same id i s [] e at = cc
find-cut_same id zero s (t ∷ scopes) e at = ground (arith, e, at)
find-cut_same id (suc i) s (t ∷ scopes) e at = ground (arith, e, at, find-cut_same id i s scopes)

module _ (id i : ℕ) (s : Scope) (scopes : List Scope) (e : position_id id scopes ≡ some i)
    (at : get_elem? scopes i ≡ some s) (same : s.id ≡ id) where
  pub cut_root : Rooted (cut_at scopes i s) id
  cut_root = root id (record s { parent = none }) (find-cut_same id i s scopes e at) refl

  -- The scope that is cut is a root, and the others keep their links.
  pub Rooted-cut : {j : ℕ} → Rooted scopes j → Rooted (cut_at scopes i s) j
  Rooted-cut (root j t found top) = elim (Bool-cases (id == j)) [
    | inl here ↦ subst (Rooted (cut_at scopes i s)) ((==_iff id j).0 here) cut_root
    | inr apart ↦ root j t (find-cut_other j i s scopes at (ground arith) ∙ found) top
  ]
  Rooted-cut (under j p t found above r) = elim (Bool-cases (id == j)) [
    | inl here ↦ subst (Rooted (cut_at scopes i s)) ((==_iff id j).0 here) cut_root
    | inr apart ↦
        under j p t (find-cut_other j i s scopes at (ground arith) ∙ found) above (Rooted-cut r)
  ]
