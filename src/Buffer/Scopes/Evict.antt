-- ===== src/Buffer/Scopes/Evict.antt =====
-- Eviction in the scope store: the oldest closed scopes leave, and the index follows.
use eventline.Prelude.{
  ℕ, zero, suc, ◌+◌, ◌-◌, ◌≤◌, ◌≡◌, refl, sym, ap, ◌∙◌, false, Option, none, some, List, [], ◌∷◌,
  ◌++◌, inl, inr, arith, ◌==◌, ltb, if◌then◌else◌, ◌>>=◌, Returns, usize_max, sub_usize_lem, length,
  length-append, get_elem?, get_elem?-middle, set, set-middle, position, position-append, subst,
  insert, remove, Option-cases, Bool-cases,
}
use native.Mathlib.Nat.{zero-sub}
use eventline.Buffer.Positions.{Position, Index, Indexes, locate, count, holds}
use eventline.Buffer.Positions.Locate.{locate-position, count-position, count-append_list}
use eventline.Buffer.Scopes.{BufferedScope, Scopes, slot_id, live, release, evict_loop}
use eventline.Buffer.Scopes.Slots.{
  closed_keys, live-append, Split, split, evict, evict_one, closed_keys-vacate,
}
use eventline.Buffer.Scopes.Sound.{IsSound}

module _ (b : BufferedScope) (after : List (Option BufferedScope)) where
  -- Other identifiers do not see that the slot of `b` is vacated.
  count_others :
      (j : ℕ) (before : List (Option BufferedScope))
      → (b.scope.id == j) ≡ false
      → count slot_id j (before ++ none ∷ after) ≡ count slot_id j (before ++ some b ∷ after)
  unfolding count
  count_others j [] apart = rw apart
  count_others j (slot ∷ before) apart = ground (arith, count_others j before)

  locate_others :
      (base j : ℕ) (before : List (Option BufferedScope))
      → (b.scope.id == j) ≡ false
      → locate slot_id base j (before ++ none ∷ after)
        ≡ locate slot_id base j (before ++ some b ∷ after)
  unfolding locate
  locate_others base j [] apart = rw apart
  locate_others base j (slot ∷ before) apart =
      ground (arith, locate_others (suc base) j before, count_others j before)

module _ (base : ℕ) (before : List (Option BufferedScope)) (b : BufferedScope)
    (after : List (Option BufferedScope)) where
  -- The slots with the scope, and with its slot vacated.
  abbrev slots : List (Option BufferedScope)
  slots = before ++ some b ∷ after

  abbrev vacated : List (Option BufferedScope)
  vacated = before ++ none ∷ after

  -- A map that is right at the identifier of `b` and untouched elsewhere indexes the rest.
  release_rest :
      (m : Index) (o : Option Position)
      → Indexes slot_id base slots m
      → o ≡ locate slot_id base b.scope.id vacated
      → (j : ℕ) → (if b.scope.id == j then o else m j) ≡ locate slot_id base j vacated
  release_rest m o h e j = ground (arith, h j, locate_others b after base j before)

  -- Vacating the slot of `b` leaves the index right.
  release_lem :
      (m : Index)
      → base + length slots ≤ usize_max
      → Indexes slot_id base slots m
      → Returns
          (release m b.scope.id (base + length before) base vacated)
          (Indexes slot_id base vacated)
  unfolding release count
  release_lem m room h =
      let id = b.scope.id in
      let found = h id ∙ locate-position slot_id base id slots in
      let total = count-append_list slot_id id before (some b ∷ after) in
      let total' = count-append_list slot_id id before (none ∷ after) in
      let at = position-append (holds slot_id id) before (some b ∷ after) in
      let at' = position-append (holds slot_id id) before (none ∷ after) in
      let left = locate-position slot_id base id vacated in
      let seen = count-position slot_id id before in
      let seen' = count-position slot_id id after in
      elim (Option-cases (position (holds slot_id id) before)) [
        | inr (i, e) ↦ (
          insert m id (record {
            first = base + i;
            count = count slot_id id before + count slot_id id after;
          }),
          ground (arith, e),
          release_rest m _ h (ground (arith, e)),
        )
        | inl e ↦ elim (Option-cases (position (holds slot_id id) after)) [
          | inl e' ↦
              (remove m id, ground (arith, e, e'), release_rest m none h (ground (arith, e, e')))
          | inr (k, e') ↦ (
            insert m id
                (record { first = base + (length before + suc k); count = count slot_id id after }),
            ground (arith, e, e', length-append before (some b ∷ after)),
            release_rest m _ h (ground (arith, e, e')),
          )
        ]
      ]

abbrev pub Evicts : ℕ → Scopes → Scopes → Type 0
Evicts n s t =
    IsSound t
    × (t.base ≡ s.base)
    × (length t.entries ≡ length s.entries)
    × (live t.entries ≡ evict n (live s.entries))

-- One round of the loop: the oldest closed scope leaves, its slot is vacated.
evict_round :
    (s : Scopes) (key : ℕ) (keys : List ℕ)
    → IsSound (record s { exited = key ∷ keys })
    → (p : Split s.base key keys s.entries)
    → let slots = p.before ++ none ∷ p.after in
      Returns (release s.by_id p.taken.scope.id key s.base slots) λ m.
        Evicts 1 s (record s { entries = slots; by_id = m; exited = keys; len = s.len - 1 })
        × (get_elem? s.entries (key - s.base) ≡ some (some p.taken))
        × (set s.entries (key - s.base) none ≡ slots)
        × (1 ≤ s.len)
        × (s.base ≤ key)
unfolding live evict
evict_round s key keys v p =
    let offset : key - s.base ≡ length p.before = omega arith in
    let (m, run, h) =
      release_lem s.base p.before p.taken p.after s.by_id (omega (arith, ap length p.whole))
        (subst (λ xs. Indexes slot_id s.base xs s.by_id) p.whole v.indexed) in
    let old : live s.entries ≡ live p.before ++ p.taken ∷ live p.after =
      ap live p.whole ∙ live-append p.before (some p.taken ∷ p.after) in
    let new : live (p.before ++ none ∷ p.after) ≡ live p.before ++ live p.after =
      live-append p.before (none ∷ p.after) in
    let size : length (p.before ++ none ∷ p.after) ≡ length s.entries = omega (
      arith,
      ap length p.whole,
      length-append p.before (none ∷ p.after),
      length-append p.before (some p.taken ∷ p.after),
    ) in
    let lens = length-append (live p.before) (p.taken ∷ live p.after) in
    (
      m,
      ap (λ k. release s.by_id p.taken.scope.id k s.base (p.before ++ none ∷ p.after)) p.at ∙ run,
      (
        (
          record {
            roomy = rw size v.roomy;
            indexed = h;
            closed =
                p.keys_after
                ∙ ap (λ k. closed_keys (suc k) p.after) p.at
                ∙ sym (closed_keys-vacate s.base p.before p.after p.none_before);
            counted = omega (
              arith,
              v.counted,
              ap length old,
              ap length new,
              lens,
              length-append (live p.before) (live p.after),
            );
          },
          refl,
          size,
          new
              ∙ sym (evict_one (live p.before) p.taken (live p.after) 0 p.none_before p.closed)
              ∙ ap (evict 1) (sym old),
        ),
        rw (offset, p.whole) (get_elem?-middle p.before (some p.taken) p.after),
        rw (offset, p.whole) (set-middle p.before (some p.taken) none p.after),
        omega (arith, v.counted, ap length old, lens),
        omega arith,
      ),
    )

evict-evict : (n : ℕ) (bs : List BufferedScope) → evict (suc n) bs ≡ evict n (evict 1 bs)
unfolding evict
evict-evict zero bs = refl
evict-evict (suc n) [] = refl
evict-evict (suc n) (b ∷ bs) = ground (arith, evict-evict (suc n) bs)

pub evict_loop_lem :
    (max : ℕ) (keys : List ℕ) (s : Scopes)
    → IsSound (record s { exited = keys })
    → Returns (evict_loop max keys s) (Evicts (length keys - max) s)
unfolding evict_loop evict
evict_loop_lem max [] s v = (record s { exited = [] }, refl, (v, refl, refl, rw zero-sub))
evict_loop_lem max (key ∷ keys) s v = elim (Bool-cases (ltb max (length (key ∷ keys)))) [
  | inr fits ↦
      let none_over : suc (length keys) - max ≡ 0 = ground arith in
      (record s { exited = key ∷ keys }, rw fits, (v, refl, refl, rw none_over))
  | inl over ↦
      let p = split s.base key keys s.entries (sym v.closed) in
      let (m, run, ((sound, base, size, left), here, there, some_left, above)) =
        evict_round s key keys v p in
      let s' = record s { entries = p.before ++ none ∷ p.after; by_id = m; len = s.len - 1 } in
      let (t, run', (sound', base', size', left')) = evict_loop_lem max keys s' sound in
      let more : suc (length keys) - max ≡ suc (length keys - max) = ground arith in
      let shown : live t.entries ≡ evict (suc (length keys) - max) (live s.entries) =
        left'
        ∙ ap (evict (length keys - max)) left
        ∙ sym (evict-evict (length keys - max) (live s.entries))
        ∙ ap (λ n. evict n (live s.entries)) (sym more) in
      (
        t,
        rw
            (
              over,
              sub_usize_lem key s.base above,
              here,
              ◌>>=◌,
              there,
              sub_usize_lem s.len 1 some_left,
              run,
            )
            run',
        (sound', base', size' ∙ size, shown),
      )
]
