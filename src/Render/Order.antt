-- ===== src/Render/Order.antt =====
-- The order in which a map gives its fields does not show in a line (src/render.rs).
use Prim.Native.String.{compare}
use Prim.Native.Nat.{Ordering}
use text.Mathlib.TextEquality.{path_by_compare}
use eventline.Prelude.{
  ℕ, ◌≡◌, ◌≢◌, Option, ◌⊎◌, refl, sym, ap, ◌∙◌, String, true, false, List, [], ◌∷◌, arith,
  Bool-cases, inl, inr, subst, some, compare_lt_trans, compare_swap, compare_swap_lt,
}
use eventline.Core.{EventKind, Value, Fields, Record, RecordKind, Scope}
use eventline.Runtime.Outputs.{ConsoleStyle, FileStyle}
use eventline.Render.{
  comes_after, place_pair, sort_pairs, pairs_text, fields_text, render_console, render_text,
}

abbrev Pair : Type 0
Pair = String × Value

-- Its keys stand in the other order.
abbrev Less : Pair → Pair → Type 0
Less p q = compare p.0 q.0 ≡ Ordering.lt

Ordering-cases : (o : Ordering) → (o ≡ Ordering.lt) ⊎ ((o ≡ Ordering.eq) ⊎ (o ≡ Ordering.gt))
Ordering-cases Ordering.lt = inl refl
Ordering-cases Ordering.eq = inr (inl refl)
Ordering-cases Ordering.gt = inr (inr refl)

-- Of two pairs with different keys one comes first.
apart-Less : (p q : Pair) → p.0 ≢ q.0 → Less p q ⊎ Less q p
apart-Less p q apart = elim (Ordering-cases (compare p.0 q.0)) [
  | inl less ↦ inl less
  | inr (inl same) ↦ absurd (apart (path_by_compare p.0 q.0 same))
  | inr (inr more) ↦ inr (compare_swap p.0 q.0 more)
]

comes_after-Less : (p q : Pair) → Less q p → comes_after p q ≡ true
unfolding comes_after
comes_after-Less p q less = rw (comes_after, compare_swap_lt q.0 p.0 less)

comes_after_not : (p q : Pair) → Less p q → comes_after p q ≡ false
unfolding comes_after
comes_after_not p q less = rw (comes_after, less)

-- A pair that is less than another is not after what the other is not after.
between : (p q r : Pair) → Less p q → comes_after q r ≡ false → comes_after p r ≡ false
unfolding comes_after
between p q r less first = elim (Ordering-cases (compare q.0 r.0)) [
  | inl e ↦ comes_after_not p r (compare_lt_trans p.0 q.0 r.0 less e)
  | inr (inl e) ↦
      comes_after_not p r
        (subst (λ k. compare p.0 k ≡ Ordering.lt) (path_by_compare q.0 r.0 e) less)
  | inr (inr e) ↦ absurd (ground (arith, e, first))
]

place_pair-after :
    (p q : Pair) (pairs : List Pair)
    → comes_after p q ≡ true
    → place_pair p (q ∷ pairs) ≡ q ∷ place_pair p pairs
unfolding place_pair
place_pair-after p q pairs after = rw (place_pair, after)

place_pair-first :
    (p q : Pair) (pairs : List Pair)
    → comes_after p q ≡ false
    → place_pair p (q ∷ pairs) ≡ p ∷ q ∷ pairs
unfolding place_pair
place_pair-first p q pairs first = rw (place_pair, first)

-- Two pairs of which one is less may be placed in any order.
place_pair-Less :
    (p q : Pair) (pairs : List Pair)
    → Less p q
    → place_pair p (place_pair q pairs) ≡ place_pair q (place_pair p pairs)
unfolding place_pair
place_pair-Less p q [] less =
    place_pair-first p q [] (comes_after_not p q less)
    ∙ sym (place_pair-after q p [] (comes_after-Less q p less))
place_pair-Less p q (r ∷ pairs) less =
    let q_after = λ (qs : List Pair). place_pair-after q p qs (comes_after-Less q p less) in
    elim (Bool-cases (comes_after q r)) [
      | inl after ↦
          let lhs = ap (place_pair p) (place_pair-after q r pairs after) in
          elim (Bool-cases (comes_after p r)) [
            | inl after' ↦
                lhs
                ∙ place_pair-after p r (place_pair q pairs) after'
                ∙ ap (◌∷◌ r) (place_pair-Less p q pairs less)
                ∙ sym (place_pair-after q r (place_pair p pairs) after)
                ∙ ap (place_pair q) (sym (place_pair-after p r pairs after'))
            | inr first' ↦
                lhs
                ∙ place_pair-first p r (place_pair q pairs) first'
                ∙ ap (◌∷◌ p) (sym (place_pair-after q r pairs after))
                ∙ sym (q_after (r ∷ pairs))
                ∙ ap (place_pair q) (sym (place_pair-first p r pairs first'))
          ]
      | inr first ↦
          ap (place_pair p) (place_pair-first q r pairs first)
          ∙ place_pair-first p q (r ∷ pairs) (comes_after_not p q less)
          ∙ ap (◌∷◌ p) (sym (place_pair-first q r pairs first))
          ∙ sym (q_after (r ∷ pairs))
          ∙ ap (place_pair q) (sym (place_pair-first p r pairs (between p q r less first)))
    ]

-- Another order of the same pairs: neighbours with different keys change places.
pub data Reordered : List Pair → List Pair → Type 0 where
  same : (pairs : List Pair) → Reordered pairs pairs
  behind : (p : Pair) (pairs qs : List Pair) → Reordered pairs qs → Reordered (p ∷ pairs) (p ∷ qs)
  swapped : (p q : Pair) (pairs : List Pair) → p.0 ≢ q.0 → Reordered (p ∷ q ∷ pairs) (q ∷ p ∷ pairs)
  then_again : (pairs qs rs : List Pair) → Reordered pairs qs → Reordered qs rs → Reordered pairs rs

sort_pairs-Reordered :
    (pairs qs : List Pair) → Reordered pairs qs → sort_pairs pairs ≡ sort_pairs qs
unfolding sort_pairs
sort_pairs-Reordered _ _ (same pairs) = refl
sort_pairs-Reordered _ _ (behind p pairs qs r) = ap (place_pair p) (sort_pairs-Reordered pairs qs r)
sort_pairs-Reordered _ _ (swapped p q pairs apart) = elim (apart-Less p q apart) [
  | inl less ↦ place_pair-Less p q (sort_pairs pairs) less
  | inr less ↦ sym (place_pair-Less q p (sort_pairs pairs) less)
]
sort_pairs-Reordered _ _ (then_again pairs qs rs a b) =
    sort_pairs-Reordered pairs qs a ∙ sort_pairs-Reordered qs rs b

module _ (float_text : ℕ → String) (quoted : String → String) (timestamp : ℕ → String) where
  fields_text-Reordered :
      (pairs qs : List Pair)
      → Reordered pairs qs
      → fields_text float_text quoted (some pairs) ≡ fields_text float_text quoted (some qs)
  unfolding fields_text
  fields_text-Reordered pairs qs r =
      ap (pairs_text float_text quoted) (sort_pairs-Reordered pairs qs r)

  -- Two events whose maps hold the same pairs under different keys, in whatever order they give them, are the
  -- same line on the console and in a text file, in every style.
  pub render-Reordered :
      (id time_ns : ℕ) (scope : Option ℕ) (kind : EventKind) (name : String) (pairs qs : List Pair)
      (s : Option Scope) (console : ConsoleStyle) (file : FileStyle)
      → Reordered pairs qs
      → let r : Fields → Record = λ fields. record {
        id = id;
        scope = scope;
        time_ns = time_ns;
        kind = RecordKind.event kind name fields;
      } in
        let on_console = λ (q : Record). render_console float_text quoted timestamp q s console in
        let in_file = λ (q : Record). render_text float_text quoted timestamp q s file in
        (on_console (r (some pairs)) ≡ on_console (r (some qs)))
        × (in_file (r (some pairs)) ≡ in_file (r (some qs)))
  unfolding render_console render_text
  render-Reordered id time scope kind name pairs qs s console file r =
      let e = fields_text-Reordered pairs qs r in (rw e, rw e)
