-- ===== src/Journal/Ids.antt =====
-- Lists of identifiers that ascend within bounds, as the counters of the journal give them out.
use eventline.Prelude.{ℕ, zero, suc, ◌≤◌, ◌≡◌, refl, List, [], ◌∷◌, ◌++◌, map, arith, drop}

-- Ascending from `lo` on, below `hi`.
abbrev pub Ascends : ℕ → List ℕ → ℕ → Type 0
Ascends lo [] hi = lo ≤ hi
Ascends lo (x ∷ xs) hi = (lo ≤ x) × Ascends (suc x) xs hi

pub Ascends-bounds : (lo hi : ℕ) (xs : List ℕ) → Ascends lo xs hi → lo ≤ hi
Ascends-bounds lo hi [] a = a
Ascends-bounds lo hi (x ∷ xs) a = omega (arith, a.0, Ascends-bounds (suc x) hi xs a.1)

pub Ascends-lower : (lo lo' hi : ℕ) (xs : List ℕ) → lo' ≤ lo → Ascends lo xs hi → Ascends lo' xs hi
Ascends-lower lo lo' hi [] h a = omega arith
Ascends-lower lo lo' hi (x ∷ xs) h a = (omega (arith, a.0), a.1)

pub Ascends-upper : (lo hi hi' : ℕ) (xs : List ℕ) → hi ≤ hi' → Ascends lo xs hi → Ascends lo xs hi'
Ascends-upper lo hi hi' [] h a = omega arith
Ascends-upper lo hi hi' (x ∷ xs) h a = (a.0, Ascends-upper (suc x) hi hi' xs h a.1)

-- The next identifier goes to the end.
pub Ascends-append :
    (lo hi : ℕ) (xs : List ℕ) → Ascends lo xs hi → Ascends lo (xs ++ hi ∷ []) (suc hi)
Ascends-append lo hi [] a = (a, omega arith)
Ascends-append lo hi (x ∷ xs) a = (a.0, Ascends-append (suc x) hi xs a.1)

pub Ascends-drop : (n lo hi : ℕ) (xs : List ℕ) → Ascends lo xs hi → Ascends lo (drop n xs) hi
Ascends-drop zero lo hi xs a = a
Ascends-drop (suc n) lo hi [] a = a
Ascends-drop (suc n) lo hi (x ∷ xs) a =
    Ascends-lower (suc x) lo hi (drop n xs) (omega (arith, a.0)) (Ascends-drop n (suc x) hi xs a.1)

pub drop-map {ℓ} :
    {A : Type ℓ} (f : A → ℕ) (n : ℕ) (xs : List A) → map f (drop n xs) ≡ drop n (map f xs)
drop-map f zero xs = refl
drop-map f (suc n) [] = refl
drop-map f (suc n) (x ∷ xs) = drop-map f n xs
