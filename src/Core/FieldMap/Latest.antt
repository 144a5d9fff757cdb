-- ===== src/Core/FieldMap/Latest.antt =====
-- A field has the value that was inserted last (src/journal/fields.rs).
use text.Mathlib.TextEquality.{path_by_compare}
use text.Mathlib.TextPositions.{compare_refl}
use Prim.Native.Nat.{Ordering}
use eventline.Prelude.{
  ◌≡◌, refl, sym, ap, ◌∙◌, String, true, false, Option, none, some, List, [], ◌∷◌, arith,
  if◌then◌else◌, Bool-cases, inl, inr,
}
use eventline.Core.{Value, Fields}
use eventline.Core.FieldMap.{same_key, put, insert, find_pair, get, collect, kept, from_iter}

-- The value of the last pair with a key, or else this one.
abbrev pub latest : String → List (String × Value) → Option Value → Option Value
latest key [] value = value
latest key ((k, v) ∷ pairs) value = latest key pairs (if same_key k key then some v else value)

same_key-eq : (a b : String) → same_key a b ≡ true → a ≡ b
same_key-eq a b e = path_by_compare a b (ground (arith, e))

same_key_refl : (a : String) → same_key a a ≡ true
same_key_refl a = ap (λ o. elim o [ Ordering.eq ↦ true | _ ↦ false ]) (compare_refl a)

find_pair-put :
    (key k : String) (v : Value) (pairs : List (String × Value))
    → find_pair key (put k v pairs) ≡ (if same_key k key then some v else find_pair key pairs)
unfolding put find_pair
find_pair-put key k v [] = refl
find_pair-put key k v ((k', v') ∷ pairs) = elim (Bool-cases (same_key k' k)) [
  | inl same ↦
      let e = ap (λ x. same_key x key) (same_key-eq k' k same) in
      elim (Bool-cases (same_key k key)) [
        | inl here ↦ rw (put, same, find_pair, e ∙ here, here)
        | inr away ↦ rw (put, same, find_pair, e ∙ away, away)
      ]
  | inr apart ↦ elim (Bool-cases (same_key k' key)) [
    | inl here ↦ elim (Bool-cases (same_key k key)) [
      | inl both ↦
          let e = same_key-eq k' key here ∙ sym (same_key-eq k key both) in
          absurd (ground (arith, apart, ap (λ x. same_key x k) e, same_key_refl k))
      | inr away ↦ rw (put, apart, find_pair, here, away)
    ]
    | inr away ↦ rw (put, apart, find_pair, away) (find_pair-put key k v pairs)
  ]
]

find_pair-collect :
    (key : String) (pairs more : List (String × Value))
    → find_pair key (collect pairs more) ≡ latest key more (find_pair key pairs)
unfolding collect
find_pair-collect key pairs [] = refl
find_pair-collect key pairs ((k, v) ∷ more) =
    find_pair-collect key (put k v pairs) more ∙ ap (latest key more) (find_pair-put key k v pairs)

get-kept :
    (key : String) (pairs : List (String × Value)) → get key (kept pairs) ≡ find_pair key pairs
unfolding get kept find_pair
get-kept key [] = refl
get-kept key (p ∷ pairs) = refl

get-insert :
    (key : String) (value : Value) (other : String) (fields : Fields)
    → get other (insert key value fields)
      ≡ (if same_key key other then some value else get other fields)
unfolding get insert
get-insert key value other none = find_pair-put other key value []
get-insert key value other (some pairs) = find_pair-put other key value pairs

-- The fields that are collected from pairs, and then one inserted: a key has the value of the last pair with it, or
-- none; an inserted value takes its place at once, and the other keys keep theirs.
pub get-latest :
    (pairs : List (String × Value)) (key : String) (value : Value) (other : String)
    → (get other (from_iter pairs) ≡ latest other pairs none)
      × (get other (insert key value (from_iter pairs))
          ≡ (if same_key key other then some value else get other (from_iter pairs)))
unfolding from_iter find_pair
get-latest pairs key value other = (
  get-kept other (collect [] pairs) ∙ find_pair-collect other [] pairs,
  get-insert key value other (kept (collect [] pairs)),
)
