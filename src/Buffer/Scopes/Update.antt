-- ===== src/Buffer/Scopes/Update.antt =====
-- What the calls of Exit do to the scopes, seen as a plain list.
use eventline.Prelude.{
  ℕ, zero, suc, ◌+◌, ◌<◌, ◌≡◌, refl, ap, ◌∙◌, true, false, Option, none, some, List, [], ◌∷◌, arith,
  ◌==◌, if◌then◌else◌, get_elem?, set, position, find?,
}
use eventline.Buffer.Positions.{locate, count, holds}
use eventline.Buffer.Scopes.{BufferedScope, slot_id, is_closed, live, set_insert}
use eventline.Buffer.Scopes.Slots.{closed_keys}

-- A change of the first scope with an identifier, in a plain list.
unfoldable pub modify_first :
    ℕ → (BufferedScope → BufferedScope) → List BufferedScope → List BufferedScope
modify_first id f [] = []
modify_first id f (b ∷ bs) = if b.scope.id == id then f b ∷ bs else b ∷ modify_first id f bs

-- A plain search.
abbrev pub find_scope : ℕ → List BufferedScope → Option BufferedScope
find_scope id bs = find? (λ b. b.scope.id == id) bs

-- The first slot with an identifier.
pub record Hit (id i : ℕ) (slots : List (Option BufferedScope)) : Type 0 where
  pub here : BufferedScope
  pub at : get_elem? slots i ≡ some (some here)
  pub same_id : here.scope.id ≡ id
  pub first : find_scope id (live slots) ≡ some here

pub hit :
    (id i : ℕ) (slots : List (Option BufferedScope))
    → position (holds slot_id id) slots ≡ some i
    → Hit id i slots
unfolding live
hit id i [] e = cc
hit id zero (none ∷ slots) e = absurd (ground (arith, e))
hit id (suc i) (none ∷ slots) e =
    let h = hit id i slots (ground (arith, e)) in
    record { here = h.here; at = h.at; same_id = h.same_id; first = h.first }
hit id zero (some b ∷ slots) e = record {
  here = b;
  at = refl;
  same_id = ground (arith, e);
  first = ground (arith, e);
}
hit id (suc i) (some b ∷ slots) e =
    let h = hit id i slots (ground (arith, e)) in
    record { here = h.here; at = h.at; same_id = h.same_id; first = ground (arith, e, h.first) }

-- A write over the first slot with the identifier is `modify_first`.
pub live-set :
    (id i : ℕ) (f : BufferedScope → BufferedScope) (b : BufferedScope)
    (slots : List (Option BufferedScope))
    → position (holds slot_id id) slots ≡ some i
    → get_elem? slots i ≡ some (some b)
    → live (set slots i (some (f b))) ≡ modify_first id f (live slots)
unfolding live modify_first
live-set id i f b [] e at = cc
live-set id zero f b (none ∷ slots) e at = cc
live-set id (suc i) f b (none ∷ slots) e at = live-set id i f b slots (ground (arith, e)) at
live-set id zero f b (some c ∷ slots) e at = ground (arith, e, at)
live-set id (suc i) f b (some c ∷ slots) e at = ground (arith, e, live-set id i f b slots)

-- It keeps the index right, as the identifier stays.
count-set :
    (i j : ℕ) (b c : BufferedScope) (slots : List (Option BufferedScope))
    → get_elem? slots i ≡ some (some b)
    → c.scope.id ≡ b.scope.id
    → count slot_id j (set slots i (some c)) ≡ count slot_id j slots
unfolding count
count-set i j b c [] at same = refl
count-set zero j b c (slot ∷ slots) at same = ground (arith, at)
count-set (suc i) j b c (slot ∷ slots) at same = ground (arith, count-set i j b c slots at same)

pub locate-set :
    (base i j : ℕ) (b c : BufferedScope) (slots : List (Option BufferedScope))
    → get_elem? slots i ≡ some (some b)
    → c.scope.id ≡ b.scope.id
    → locate slot_id base j (set slots i (some c)) ≡ locate slot_id base j slots
unfolding locate
locate-set base i j b c [] at same = refl
locate-set base zero j b c (slot ∷ slots) at same = ground (arith, at)
locate-set base (suc i) j b c (slot ∷ slots) at same =
    ground (arith, count-set i j b c slots at same, locate-set (suc base) i j b c slots at same)

pub closed_keys-set :
    (base i : ℕ) (b c : BufferedScope) (slots : List (Option BufferedScope))
    → get_elem? slots i ≡ some (some b)
    → is_closed c ≡ is_closed b
    → closed_keys base (set slots i (some c)) ≡ closed_keys base slots
unfolding closed_keys
closed_keys-set base i b c [] at same = refl
closed_keys-set base zero b c (none ∷ slots) at same = cc
closed_keys-set base zero b c (some d ∷ slots) at same = ground (arith, at)
closed_keys-set base (suc i) b c (none ∷ slots) at same =
    closed_keys-set (suc base) i b c slots at same
closed_keys-set base (suc i) b c (some d ∷ slots) at same =
    ground (arith, closed_keys-set (suc base) i b c slots at same)

-- Closing an open scope adds its position at its place in the order.
set_insert-below :
    (k base : ℕ) (slots : List (Option BufferedScope))
    → k < base
    → set_insert k (closed_keys base slots) ≡ k ∷ closed_keys base slots
unfolding set_insert closed_keys
set_insert-below k base [] low = refl
set_insert-below k base (none ∷ slots) low = set_insert-below k (suc base) slots (omega arith)
set_insert-below k base (some b ∷ slots) low =
    ground (arith, set_insert-below k (suc base) slots (omega arith))

pub closed_keys-close :
    (base i : ℕ) (b c : BufferedScope) (slots : List (Option BufferedScope))
    → get_elem? slots i ≡ some (some b)
    → is_closed b ≡ false
    → is_closed c ≡ true
    → closed_keys base (set slots i (some c)) ≡ set_insert (base + i) (closed_keys base slots)
unfolding closed_keys set_insert
closed_keys-close base i b c [] at open_b shut = cc
closed_keys-close base zero b c (none ∷ slots) at open_b shut = cc
closed_keys-close base zero b c (some d ∷ slots) at open_b shut =
    let zero_off : base + 0 ≡ base = omega arith in
    rw (shut, zero_off) (ground (arith, at, set_insert-below base (suc base) slots (omega arith)))
closed_keys-close base (suc i) b c (none ∷ slots) at open_b shut =
    closed_keys-close (suc base) i b c slots at open_b shut
    ∙ ap (λ k. set_insert k (closed_keys (suc base) slots)) (omega arith)
closed_keys-close base (suc i) b c (some d ∷ slots) at open_b shut =
    let next : suc base + i ≡ base + suc i = omega arith in
    ground (arith, closed_keys-close (suc base) i b c slots at open_b shut, next)
