-- ===== src/Prelude/Strings.antt =====
-- The order of texts, by the codes of their characters.
use Prim.Native.Nat.{ℕ, Ordering, compare as compare_ℕ}
use Prim.Native.Char.{code}
use Prim.Native.String.compare
use Prim.Native.String.{String, [], ◌∷◌, compare, then}
use mathlib.Core.Path.{◌≡◌, sym, ◌∙◌}
use native.Mathlib.Omega.{arith}

then_lt :
    (a b c : ℕ) (o p q : Ordering)
    → (o ≡ Ordering.lt → p ≡ Ordering.lt → q ≡ Ordering.lt)
    → then (compare_ℕ a b) o ≡ Ordering.lt
    → then (compare_ℕ b c) p ≡ Ordering.lt
    → then (compare_ℕ a c) q ≡ Ordering.lt
then_lt a b c o p q h e f = ground (arith, h)

then_gt :
    (a b : ℕ) (o p : Ordering)
    → (o ≡ Ordering.gt → p ≡ Ordering.lt)
    → then (compare_ℕ a b) o ≡ Ordering.gt
    → then (compare_ℕ b a) p ≡ Ordering.lt
then_gt a b o p h e = ground (arith, h)

then_lt_swap :
    (a b : ℕ) (o p : Ordering)
    → (o ≡ Ordering.lt → p ≡ Ordering.gt)
    → then (compare_ℕ a b) o ≡ Ordering.lt
    → then (compare_ℕ b a) p ≡ Ordering.gt
then_lt_swap a b o p h e = ground (arith, h)

pub compare_lt_trans :
    (s t u : String)
    → compare s t ≡ Ordering.lt
    → compare t u ≡ Ordering.lt
    → compare s u ≡ Ordering.lt
compare_lt_trans [] [] u e f = f
compare_lt_trans (c ∷ s) [] u e f = cc (sym (compare.cons-nil c s) ∙ e)
compare_lt_trans [] (d ∷ t) [] e f = cc (sym (compare.cons-nil d t) ∙ f)
compare_lt_trans [] (d ∷ t) (x ∷ u) e f = compare.nil-cons x u
compare_lt_trans (c ∷ s) (d ∷ t) [] e f = cc (sym (compare.cons-nil d t) ∙ f)
compare_lt_trans (c ∷ s) (d ∷ t) (x ∷ u) e f =
    compare.cons-cons c x s u
    ∙ then_lt (code c) (code d) (code x) (compare s t) (compare t u) (compare s u)
        (compare_lt_trans s t u) (sym (compare.cons-cons c d s t) ∙ e)
        (sym (compare.cons-cons d x t u) ∙ f)

pub compare_swap : (s t : String) → compare s t ≡ Ordering.gt → compare t s ≡ Ordering.lt
compare_swap [] [] e = cc (sym compare.nil-nil ∙ e)
compare_swap [] (d ∷ t) e = cc (sym (compare.nil-cons d t) ∙ e)
compare_swap (c ∷ s) [] e = compare.nil-cons c s
compare_swap (c ∷ s) (d ∷ t) e =
    compare.cons-cons d c t s
    ∙ then_gt (code c) (code d) (compare s t) (compare t s) (compare_swap s t)
        (sym (compare.cons-cons c d s t) ∙ e)

pub compare_swap_lt : (s t : String) → compare s t ≡ Ordering.lt → compare t s ≡ Ordering.gt
compare_swap_lt [] [] e = cc (sym compare.nil-nil ∙ e)
compare_swap_lt [] (d ∷ t) e = compare.cons-nil d t
compare_swap_lt (c ∷ s) [] e = cc (sym (compare.cons-nil c s) ∙ e)
compare_swap_lt (c ∷ s) (d ∷ t) e =
    compare.cons-cons d c t s
    ∙ then_lt_swap (code c) (code d) (compare s t) (compare t s) (compare_swap_lt s t)
        (sym (compare.cons-cons c d s t) ∙ e)
