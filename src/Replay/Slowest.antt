-- ===== src/Replay/Slowest.antt =====
-- `slowest_scopes` (src/replay.rs): the longest outcomes, longest first, and those of equal length in
-- record order.
use eventline.Prelude.{
  ℕ, zero, suc, ◌≤◌, min, ◌≡◌, refl, sym, ap, ◌∙◌, List, [], ◌∷◌, ◌++◌, inl, inr, arith, ◌==◌, leb,
  length, filter, subst, drop, take, Bool-cases,
}
use eventline.Core.{Record, Scope}
use eventline.Replay.{ScopeOutcome, scope_outcomes, place_outcome, sort_outcomes, slowest_scopes}
use mathlib.Core.List.{Permᴰ}
use mathlib.Core.List.Permᴰ as Perms

-- Longest first.
pub Descends : List ScopeOutcome → Type 0
Descends [] = 0 ≤ 0
Descends (s ∷ []) = 0 ≤ 0
Descends (s ∷ t ∷ rest) = (t.duration_ns ≤ s.duration_ns) × Descends (t ∷ rest)

-- The outcomes of one length, in order.
abbrev pub lasting : ℕ → List ScopeOutcome → List ScopeOutcome
lasting d = filter (λ s. s.duration_ns == d)

place-Perm : (s : ScopeOutcome) (ts : List ScopeOutcome) → Permᴰ (place_outcome s ts) (s ∷ ts)
unfolding place_outcome
place-Perm s [] = Perms.refl (s ∷ [])
place-Perm s (t ∷ ts) = elim (Bool-cases (leb t.duration_ns s.duration_ns)) [
  | inl first ↦ rw first (Perms.refl (s ∷ t ∷ ts))
  | inr later ↦ rw later (Permᴰ.trans (Permᴰ.cons refl (place-Perm s ts)) (Permᴰ.swap refl refl))
]

sort-Perm : (ss : List ScopeOutcome) → Permᴰ (sort_outcomes ss) ss
unfolding sort_outcomes
sort-Perm [] = Permᴰ.nil
sort-Perm (s ∷ ss) = Permᴰ.trans (place-Perm s (sort_outcomes ss)) (Permᴰ.cons refl (sort-Perm ss))

place-Descends :
    (s : ScopeOutcome) (ts : List ScopeOutcome) → Descends ts → Descends (place_outcome s ts)
unfolding place_outcome Descends
place-Descends s [] v = omega arith
place-Descends s (t ∷ []) v = elim (Bool-cases (leb t.duration_ns s.duration_ns)) [
  | inl first ↦ rw first (ground arith, omega arith)
  | inr later ↦ rw later (ground arith, omega arith)
]
place-Descends s (t ∷ u ∷ ts) v = elim (Bool-cases (leb t.duration_ns s.duration_ns)) [
  | inl first ↦ rw first (ground arith, v)
  | inr later ↦ elim (Bool-cases (leb u.duration_ns s.duration_ns)) [
    | inl second ↦ rw (later, second) (ground arith, (ground arith, v.1))
    | inr third ↦
        let e : place_outcome s (u ∷ ts) ≡ u ∷ place_outcome s ts = rw third refl in
        rw (later, third) (v.0, subst Descends e (place-Descends s (u ∷ ts) v.1))
  ]
]

sort-Descends : (ss : List ScopeOutcome) → Descends (sort_outcomes ss)
unfolding sort_outcomes Descends
sort-Descends [] = omega arith
sort-Descends (s ∷ ss) = place-Descends s (sort_outcomes ss) (sort-Descends ss)

place-lasting :
    (d : ℕ) (s : ScopeOutcome) (ts : List ScopeOutcome)
    → lasting d (place_outcome s ts) ≡ lasting d (s ∷ ts)
unfolding place_outcome
place-lasting d s [] = refl
place-lasting d s (t ∷ ts) = ground (arith, place-lasting d s ts)

sort-lasting : (d : ℕ) (ss : List ScopeOutcome) → lasting d (sort_outcomes ss) ≡ lasting d ss
unfolding sort_outcomes
sort-lasting d [] = refl
sort-lasting d (s ∷ ss) = place-lasting d s (sort_outcomes ss) ∙ ground (arith, sort-lasting d ss)

take-drop : (n : ℕ) (ss : List ScopeOutcome) → take n ss ++ drop n ss ≡ ss
take-drop zero ss = refl
take-drop (suc n) [] = refl
take-drop (suc n) (s ∷ ss) = ap (◌∷◌ s) (take-drop n ss)

length-take : (n : ℕ) (ss : List ScopeOutcome) → length (take n ss) ≡ min n (length ss)
length-take zero ss = omega arith
length-take (suc n) [] = omega arith
length-take (suc n) (s ∷ ss) = omega (arith, length-take n ss)

length-place :
    (s : ScopeOutcome) (ts : List ScopeOutcome) → length (place_outcome s ts) ≡ suc (length ts)
unfolding place_outcome
length-place s [] = refl
length-place s (t ∷ ts) = ground (arith, length-place s ts)

length-sort : (ss : List ScopeOutcome) → length (sort_outcomes ss) ≡ length ss
unfolding sort_outcomes
length-sort [] = refl
length-sort (s ∷ ss) = length-place s (sort_outcomes ss) ∙ ap suc (length-sort ss)

-- For all records, scopes and limits, `slowest_scopes` gives as many outcomes as the limit allows, and
-- with some others behind them they are all the outcomes, rearranged longest first, with those of
-- equal duration still in record order: none that is left out is longer than one that is given.
pub slowest_scopes-Descends :
    (records : List Record) (scopes : List Scope) (limit : ℕ)
    → let all = scope_outcomes records scopes in
      let slowest = slowest_scopes records scopes limit in
      (length slowest ≡ min limit (length all))
      × ((rest : List ScopeOutcome) × Permᴰ (slowest ++ rest) all
          × Descends (slowest ++ rest)
          × ((d : ℕ) → lasting d (slowest ++ rest) ≡ lasting d all))
unfolding slowest_scopes
slowest_scopes-Descends records scopes limit =
    let all = scope_outcomes records scopes in
    let whole = take-drop limit (sort_outcomes all) in
    (
      length-take limit (sort_outcomes all) ∙ ap (min limit) (length-sort all),
      (
        drop limit (sort_outcomes all),
        subst (λ ss. Permᴰ ss all) (sym whole) (sort-Perm all),
        subst Descends (sym whole) (sort-Descends all),
        λ d. ap (lasting d) whole ∙ sort-lasting d all,
      ),
    )
