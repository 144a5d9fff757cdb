-- ===== src/Load/Chains.antt =====
-- Chains of parent links, and what cutting a link does to them (the repair in `finish` of
-- src/replay/load.rs).
use eventline.Prelude.{
  ℕ, zero, suc, ◌≤◌, ◌≡◌, ◌⊎◌, sym, ap, ◌∙◌, true, Option, none, some, List, [], ◌∷◌, inl, inr,
  arith, ◌==◌, get_elem?, subst, HashMap, Bool-cases, ==_iff,
}
use eventline.Core.{Scope}
use eventline.Load.Finish.{cut_at, contains}
use eventline.Load.Rooted.{
  find_id, position_id, Rooted, root, under, find-cut_other, find-cut_same, cut_root,
}

-- A path is a chain of parent links, from its last scope to its first; the first leads to `c`.
abbrev pub Chain : List Scope → List ℕ → Option ℕ → Type 0
Chain scopes [] c = 0 ≤ 0
Chain scopes (x ∷ path) c =
    ((s : Scope) × (find_id x scopes ≡ some s) × (s.parent ≡ c)) × Chain scopes path (some x)

abbrev pub AllRooted : List Scope → List ℕ → Type 0
AllRooted scopes xs = (x : ℕ) → contains xs x ≡ true → Rooted scopes x

-- Every parent link leads to a scope.
abbrev pub Closed : HashMap ℕ → List Scope → Type 0
Closed index scopes =
    (j : ℕ) (s : Scope) (p : ℕ)
    → find_id j scopes ≡ some s
    → s.parent ≡ some p
    → (i : ℕ) × (index p ≡ some i)

pub AllRooted-cons :
    (scopes : List Scope) (x : ℕ) (xs : List ℕ)
    → Rooted scopes x
    → AllRooted scopes xs
    → AllRooted scopes (x ∷ xs)
AllRooted-cons scopes x xs r rs y h = elim (Bool-cases (x == y)) [
  | inl same ↦ subst (Rooted scopes) ((==_iff x y).0 same) r
  | inr apart ↦ rs y (ground (arith, h, apart))
]

pub Chain-under :
    (scopes : List Scope) (path : List ℕ) (p : ℕ)
    → Chain scopes path (some p)
    → Rooted scopes p
    → AllRooted scopes path
Chain-under scopes [] p c r = λ x h. cc
Chain-under scopes (y ∷ path) p ((s, found, above), c) r =
    let ry = under y p s found above r in
    AllRooted-cons scopes y path ry (Chain-under scopes path y c ry)

pub Chain-top :
    (scopes : List Scope) (path : List ℕ) → Chain scopes path none → AllRooted scopes path
Chain-top scopes [] c = λ x h. cc
Chain-top scopes (y ∷ path) ((s, found, above), c) =
    let ry = root y s found above in
    AllRooted-cons scopes y path ry (Chain-under scopes path y c ry)

module _ (id i : ℕ) (s : Scope) (scopes : List Scope) (e : position_id id scopes ≡ some i)
    (at : get_elem? scopes i ≡ some s) (same : s.id ≡ id) where
  -- After a cut of the scope that a chain leads to, the chain is rooted.
  pub Chain-cut :
      (path : List ℕ) (p : ℕ)
      → Chain scopes path (some p)
      → Rooted (cut_at scopes i s) p
      → AllRooted (cut_at scopes i s) path
  Chain-cut [] p c r = λ x h. cc
  Chain-cut (y ∷ path) p ((t, found, above), c) r =
      let cut = cut_at scopes i s in
      let ry : Rooted cut y = elim (Bool-cases (id == y)) [
        | inl here ↦ subst (Rooted cut) ((==_iff id y).0 here) (cut_root id i s scopes e at same)
        | inr apart ↦
            under y p t (find-cut_other y i s scopes at (ground (arith, same, apart)) ∙ found) above
              r
      ] in
      AllRooted-cons cut y path ry (Chain-cut path y c ry)

pub Closed-cut :
    (index : HashMap ℕ) (id i : ℕ) (s : Scope) (scopes : List Scope)
    → position_id id scopes ≡ some i
    → get_elem? scopes i ≡ some s
    → s.id ≡ id
    → Closed index scopes
    → Closed index (cut_at scopes i s)
Closed-cut index id i s scopes e at same closed j t p found above = elim (Bool-cases (id == j)) [
  | inl here ↦
      let e' : position_id j scopes ≡ some i =
        ap (λ k. position_id k scopes) (sym ((==_iff id j).0 here)) ∙ e in
      absurd (ground (arith, find-cut_same j i s scopes e' at, found, above))
  | inr apart ↦
      closed j t p (sym (find-cut_other j i s scopes at (ground (arith, same, apart))) ∙ found)
        above
]

-- A scope may lose its parent link, but only if its parents did not lead to a root.
abbrev pub Cuts : List Scope → List Scope → Type 0
Cuts scopes result =
    (k : ℕ) (t : Scope)
    → get_elem? scopes k ≡ some t
    → (get_elem? result k ≡ some t)
      ⊎ ((get_elem? result k ≡ some (record t { parent = none })) × ¬ Rooted scopes t.id)

pub cut_elem :
    (scopes : List Scope) (i : ℕ) (s : Scope) (k : ℕ) (t : Scope)
    → get_elem? scopes i ≡ some s
    → get_elem? scopes k ≡ some t
    → (get_elem? (cut_at scopes i s) k ≡ some t)
      ⊎ ((get_elem? (cut_at scopes i s) k ≡ some (record t { parent = none })) × (s ≡ t))
cut_elem [] i s k t at there = inl there
cut_elem (x ∷ scopes) zero s zero t at there =
    let same : s ≡ t = ground (arith, at, there) in
    inr (ap (λ (u : Scope). some (record u { parent = none })) same, same)
cut_elem (x ∷ scopes) zero s (suc k) t at there = inl there
cut_elem (x ∷ scopes) (suc i) s zero t at there = inl there
cut_elem (x ∷ scopes) (suc i) s (suc k) t at there = cut_elem scopes i s k t at there

-- The parent of every scope of `xs` is in `all`.
abbrev pub Inside : List Scope → List ℕ → List ℕ → Type 0
Inside scopes xs all =
    (x : ℕ)
    → contains xs x ≡ true
    → (s : Scope) × (p : ℕ) × (find_id x scopes ≡ some s)
      × (s.parent ≡ some p)
      × (contains all p ≡ true)

pub Chain-Inside :
    (scopes : List Scope) (path all : List ℕ) (c : ℕ)
    → Chain scopes path (some c)
    → contains all c ≡ true
    → ((y : ℕ) → contains path y ≡ true → contains all y ≡ true)
    → Inside scopes path all
Chain-Inside scopes [] all c chain inside sub x h = cc
Chain-Inside scopes (y ∷ path) all c ((s, found, above), chain) inside sub x h =
    elim (Bool-cases (y == x)) [
      | inl same ↦
          (s, c, ap (λ i. find_id i scopes) (sym ((==_iff y x).0 same)) ∙ found, above, inside)
      | inr apart ↦
          Chain-Inside scopes path all y chain (sub y (ground arith))
            (λ z e. sub z (ground (arith, e))) x (ground (arith, h, apart))
    ]

-- Scopes whose parents stay among them do not lead to a root.
pub no_root :
    (scopes : List Scope) (path : List ℕ)
    → Inside scopes path path
    → (j : ℕ) → contains path j ≡ true
    → ¬ Rooted scopes j
no_root scopes path inside j h (root _ s found top) =
    let (t, p, found', above, _) = inside j h in absurd (ground (arith, found, top, found', above))
no_root scopes path inside j h (under _ q s found above r) =
    let (t, p, found', above', more) = inside j h in
    let same : p ≡ q = ground (arith, found, above, found', above') in
    no_root scopes path inside q (ap (contains path) (sym same) ∙ more) r
