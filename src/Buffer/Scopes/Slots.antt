-- ===== src/Buffer/Scopes/Slots.antt =====
-- The slots of the scope store: the positions of the closed scopes, the taken slots, and where a
-- list of slots is taken apart at its first closed scope.
use eventline.Prelude.{
  ℕ, zero, suc, ◌+◌, ◌≤◌, ◌≡◌, refl, ap, ◌∙◌, true, Option, none, some, List, [], ◌∷◌, ◌++◌, inl,
  inr, arith, if◌then◌else◌, length, Bool-cases,
}
use eventline.Buffer.Scopes.{BufferedScope, is_closed, live}

-- The positions of the closed scopes, ascending.
unfoldable pub closed_keys : ℕ → List (Option BufferedScope) → List ℕ
closed_keys base [] = []
closed_keys base (none ∷ slots) = closed_keys (suc base) slots
closed_keys base (some b ∷ slots) =
    if is_closed b then base ∷ closed_keys (suc base) slots else closed_keys (suc base) slots

-- Evicting the oldest `n` closed scopes of a plain list.
unfoldable pub evict : ℕ → List BufferedScope → List BufferedScope
evict zero bs = bs
evict (suc n) [] = []
evict (suc n) (b ∷ bs) = if is_closed b then evict n bs else b ∷ evict (suc n) bs

unfoldable pub closed_count : List BufferedScope → ℕ
closed_count [] = 0
closed_count (b ∷ bs) = if is_closed b then suc (closed_count bs) else closed_count bs

pub length-closed_keys :
    (base : ℕ) (slots : List (Option BufferedScope))
    → length (closed_keys base slots) ≡ closed_count (live slots)
unfolding closed_keys closed_count live
length-closed_keys base [] = refl
length-closed_keys base (none ∷ slots) = length-closed_keys (suc base) slots
length-closed_keys base (some b ∷ slots) = ground (arith, length-closed_keys (suc base) slots)

pub live-append : (xs ys : List (Option BufferedScope)) → live (xs ++ ys) ≡ live xs ++ live ys
unfolding live
live-append [] ys = refl
live-append (none ∷ xs) ys = live-append xs ys
live-append (some b ∷ xs) ys = ap (◌∷◌ b) (live-append xs ys)

pub length-live-le : (xs : List (Option BufferedScope)) → length (live xs) ≤ length xs
unfolding live
length-live-le [] = omega arith
length-live-le (none ∷ xs) = omega (arith, length-live-le xs)
length-live-le (some b ∷ xs) = omega (arith, length-live-le xs)

-- The slots around the first closed scope.
pub record Split (base key : ℕ) (keys : List ℕ) (slots : List (Option BufferedScope)) : Type 0 where
  pub before : List (Option BufferedScope)
  pub taken : BufferedScope
  pub after : List (Option BufferedScope)
  pub whole : slots ≡ before ++ some taken ∷ after
  pub at : key ≡ base + length before
  pub closed : is_closed taken ≡ true
  pub none_before : closed_count (live before) ≡ 0
  pub keys_after : keys ≡ closed_keys (suc key) after

pub split :
    (base key : ℕ) (keys : List ℕ) (slots : List (Option BufferedScope))
    → closed_keys base slots ≡ key ∷ keys
    → Split base key keys slots
unfolding closed_keys closed_count live
split base key keys [] e = cc
split base key keys (none ∷ slots) e =
    let r = split (suc base) key keys slots e in
    record {
      before = none ∷ r.before;
      taken = r.taken;
      after = r.after;
      whole = ap (◌∷◌ none) r.whole;
      at = omega (arith, r.at);
      closed = r.closed;
      none_before = r.none_before;
      keys_after = r.keys_after;
    }
split base key keys (some b ∷ slots) e = elim (Bool-cases (is_closed b)) [
  | inl shut ↦ record {
    before = [];
    taken = b;
    after = slots;
    whole = refl;
    at = ground arith;
    closed = shut;
    none_before = refl;
    keys_after = ground arith;
  }
  | inr still ↦
      let r = split (suc base) key keys slots (ground arith) in
      record {
        before = some b ∷ r.before;
        taken = r.taken;
        after = r.after;
        whole = ap (◌∷◌ (some b)) r.whole;
        at = omega (arith, r.at);
        closed = r.closed;
        none_before = rw still r.none_before;
        keys_after = r.keys_after;
      }
]

-- A vacated slot takes its key away and leaves the others.
pub closed_keys-vacate :
    (base : ℕ) (xs ys : List (Option BufferedScope))
    → closed_count (live xs) ≡ 0
    → closed_keys base (xs ++ none ∷ ys) ≡ closed_keys (suc (base + length xs)) ys
unfolding closed_keys closed_count live
closed_keys-vacate base [] ys h = ap (λ k. closed_keys (suc k) ys) (omega arith)
closed_keys-vacate base (none ∷ xs) ys h =
    closed_keys-vacate (suc base) xs ys h ∙ ap (λ k. closed_keys (suc k) ys) (omega arith)
closed_keys-vacate base (some b ∷ xs) ys h = elim (Bool-cases (is_closed b)) [
  | inl shut ↦ absurd (ground (arith, h, shut))
  | inr still ↦ rw still (
      closed_keys-vacate (suc base) xs ys (ground (arith, h, still))
      ∙ ap (λ k. closed_keys (suc k) ys) (omega arith))
]

pub evict_one :
    (xs : List BufferedScope) (b : BufferedScope) (ys : List BufferedScope) (n : ℕ)
    → closed_count xs ≡ 0
    → is_closed b ≡ true
    → evict (suc n) (xs ++ b ∷ ys) ≡ evict n (xs ++ ys)
unfolding evict closed_count
evict_one [] b ys n h shut = rw shut
evict_one (x ∷ xs) b ys zero h shut = ground (arith, evict_one xs b ys 0)
evict_one (x ∷ xs) b ys (suc n) h shut = ground (arith, evict_one xs b ys (suc n))
