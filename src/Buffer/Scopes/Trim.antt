-- ===== src/Buffer/Scopes/Trim.antt =====
-- `Scopes::trim`: at most `max` closed scopes stay, and vacant slots stay bounded.
use eventline.Prelude.{
  ℕ, suc, ◌+◌, ◌-◌, ◌≤◌, ◌*◌, ◌≡◌, ◌⊎◌, refl, sym, ap, ◌∙◌, true, Option, none, some, List, [], ◌∷◌,
  inl, inr, arith, ◌==◌, ltb, ◌>>=◌, Returns, usize_max, add_usize_lem, sub_usize_lem, length,
  Bool-cases,
}
use eventline.Buffer.Positions.{locate}
use eventline.Buffer.Scopes.{
  BufferedScope, Scopes, slot_id, live, drop_vacant, compact_sparse, settle, trim,
}
use eventline.Buffer.Scopes.Slots.{
  closed_keys, length-live-le, evict, closed_count, length-closed_keys,
}
use eventline.Buffer.Scopes.Sound.{IsSound, compact_lem}
use eventline.Buffer.Scopes.Evict.{evict_loop_lem}

-- The slots without their vacant front say the same, from a later position on.
pub record SameSlots (slots : List (Option BufferedScope)) (base : ℕ)
    (r : List (Option BufferedScope) × ℕ) : Type 0 where
  pub end : r.1 + length r.0 ≡ base + length slots
  pub located : (id : ℕ) → locate slot_id r.1 id r.0 ≡ locate slot_id base id slots
  pub shut : closed_keys r.1 r.0 ≡ closed_keys base slots
  pub shown : live r.0 ≡ live slots
  pub shorter : length r.0 ≤ length slots

drop_vacant_lem :
    (slots : List (Option BufferedScope)) (base : ℕ)
    → base + length slots ≤ usize_max
    → Returns (drop_vacant slots base) (SameSlots slots base)
unfolding drop_vacant locate closed_keys live
drop_vacant_lem [] base room = (
  ([], base),
  refl,
  record { end = refl; located = λ id. refl; shut = refl; shown = refl; shorter = omega arith },
)
drop_vacant_lem (some b ∷ slots) base room = (
  (some b ∷ slots, base),
  refl,
  record { end = refl; located = λ id. refl; shut = refl; shown = refl; shorter = omega arith },
)
drop_vacant_lem (none ∷ slots) base room =
    let next : base + 1 ≡ suc base = omega arith in
    let (r, run, w) = drop_vacant_lem slots (suc base) (omega arith) in
    (
      r,
      rw (add_usize_lem base 1 (omega arith), ◌>>=◌, next) run,
      record {
        end = omega (arith, w.end);
        located = w.located;
        shut = w.shut;
        shown = w.shown;
        shorter = omega (arith, w.shorter);
      },
    )

-- The vacant slots are few, or no more than the taken ones.
abbrev pub IsCompact : Scopes → Type 0
IsCompact t = (length t.entries ≤ 64) ⊎ (length t.entries ≤ 2 * t.len)

abbrev Settled : Scopes → Scopes → Type 0
Settled s t =
    IsSound t
    × IsCompact t
    × (live t.entries ≡ live s.entries)
    × (length t.entries ≤ length s.entries)

compact_sparse_lem : (s : Scopes) → IsSound s → Returns (compact_sparse s) (Settled s)
unfolding compact_sparse
compact_sparse_lem s v =
    let inside : s.len ≤ length s.entries = omega (arith, v.counted, length-live-le s.entries) in
    elim (Bool-cases (ltb s.len (length s.entries - s.len))) [
      | inl sparse ↦
          let (t, run, (sound, same, _, packed)) = compact_lem s v in
          let len : t.len ≡ s.len = sound.counted ∙ ap length same ∙ sym v.counted in
          (
            t,
            rw (sub_usize_lem (length s.entries) s.len inside, ◌>>=◌, sparse) run,
            (sound, inr (omega arith), same, omega arith),
          )
      | inr dense ↦ (
        s,
        rw (sub_usize_lem (length s.entries) s.len inside, ◌>>=◌, dense),
        (v, inr (ground arith), refl, omega arith),
      )
    ]

empty_base :
    (s : Scopes) (slots : List (Option BufferedScope))
    → s.entries ≡ slots
    → (length slots == 0) ≡ true
    → IsSound s
    → IsSound (record s { base = 0 })
unfolding locate closed_keys
empty_base s [] e z v = record {
  roomy = omega (arith, v.roomy);
  indexed = λ id. v.indexed id ∙ ap (locate slot_id s.base id) e ∙ ap (locate slot_id 0 id) (sym e);
  closed = v.closed ∙ ap (closed_keys s.base) e ∙ ap (closed_keys 0) (sym e);
  counted = v.counted;
}
empty_base s (b ∷ slots) e z v = absurd (ground arith)

settle_lem : (s : Scopes) → IsSound s → Returns (settle s) (Settled s)
unfolding settle
settle_lem s v = elim (Bool-cases (length s.entries == 0)) [
  | inl z ↦ (
    record s { base = 0 },
    rw z,
    (empty_base s s.entries refl z v, inl (ground arith), refl, omega arith),
  )
  | inr some_slots ↦ elim (Bool-cases (ltb 64 (length s.entries))) [
    | inl long ↦ rw (some_slots, long) (compact_sparse_lem s v)
    | inr short ↦ (s, rw (some_slots, short), (v, inl (ground arith), refl, omega arith))
  ]
]

-- For every sound store, `Scopes::trim` returns a sound store whose scopes are those from before
-- without the oldest closed ones beyond `max`, in order, with every open one kept; its slots are at
-- most 64 or at most twice the scopes, and no more than before.
pub trim-evict :
    (max : ℕ) (s : Scopes)
    → IsSound s
    → Returns (trim max s) λ t.
      IsSound t
      × IsCompact t
      × (live t.entries ≡ evict (closed_count (live s.entries) - max) (live s.entries))
      × (length t.entries ≤ length s.entries)
unfolding trim
trim-evict max s v =
    let (t, run, (sound, base, size, left)) = evict_loop_lem max s.exited s v in
    let ((slots, base'), run', w) = drop_vacant_lem t.entries t.base sound.roomy in
    let front = record t { entries = slots; base = base' } in
    let front_sound : IsSound front = record {
      roomy = omega (arith, w.end, sound.roomy);
      indexed = λ id. sound.indexed id ∙ sym (w.located id);
      closed = sound.closed ∙ sym w.shut;
      counted = sound.counted ∙ ap length (sym w.shown);
    } in
    let (u, run'', (sound', few, same, short)) = settle_lem front front_sound in
    let over : length s.exited ≡ closed_count (live s.entries) =
      ap length v.closed ∙ length-closed_keys s.base s.entries in
    (
      u,
      rw (run, ◌>>=◌, run') run'',
      (
        sound',
        few,
        same ∙ w.shown ∙ left ∙ ap (λ n. evict (n - max) (live s.entries)) over,
        omega (arith, size, w.shorter),
      ),
    )
