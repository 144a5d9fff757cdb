-- ===== src/Buffer/Records/Trim.antt =====
-- `Records::trim`: the oldest records go, and the index follows.
use eventline.Prelude.{
  ℕ, suc, ◌+◌, ◌-◌, ◌≤◌, ◌≡◌, refl, Option, none, some, List, [], ◌∷◌, inl, inr, arith, ◌==◌, ltb,
  if◌then◌else◌, Returns, usize_max, add_usize_lem, length, subst, position, drop, insert, remove,
  Option-cases, Bool-cases,
}
use native.Mathlib.Nat.{zero-sub}
use eventline.Core.{Record}
use eventline.Buffer.Positions.{Index, holds, locate, count}
use eventline.Buffer.Positions.Locate.{locate-position, count-position}
use eventline.Buffer.Positions.Updates.{own_key}
use eventline.Buffer.Records.{Records, id_of, forget, trim_loop, rebase_empty, trim}
use eventline.Buffer.Records.Sound.{Tracks, IsSound}

abbrev key : Record → Option ℕ
key = own_key id_of

-- Popping the oldest record updates the index: the entry exists, and where it stays a next
-- occurrence is found.
forget_lem :
    (base : ℕ) (r : Record) (rest : List Record) (o : Option Index)
    → base + length (r ∷ rest) ≤ usize_max
    → Tracks base (r ∷ rest) o
    → Returns (forget o r.id (base + 1) rest) (Tracks (base + 1) rest)
unfolding forget locate
forget_lem base r rest none room h = (none, refl, tt)
forget_lem base r rest (some m) room h =
    let head : m r.id ≡ some (record { first = base; count = suc (count key r.id rest) }) =
      ground (arith, h r.id) in
    elim (Option-cases (position (holds key r.id) rest)) [
      | inl e ↦ (
        some (remove m r.id),
        ground (arith, head, e, count-position key r.id rest),
        λ j. ground (arith, h j, e, locate-position key (suc base) j rest),
      )
      | inr (i, e) ↦ (
        some (insert m r.id (record { first = base + 1 + i; count = count key r.id rest })),
        ground (arith, head, e, count-position key r.id rest),
        λ j. ground (arith, h j, e, locate-position key (suc base) j rest),
      )
    ]

abbrev Trimmed : ℕ → List Record → Records → Type 0
Trimmed max xs t = IsSound t × (t.entries ≡ drop (length xs - max) xs)

trim_loop_lem :
    (max : ℕ) (xs : List Record) (o : Option Index) (base : ℕ)
    → base + length xs ≤ usize_max
    → Tracks base xs o
    → Returns (trim_loop max xs o base) (Trimmed max xs)
unfolding trim_loop
trim_loop_lem max [] o base room h = (
  record { entries = []; by_id = o; base = base },
  refl,
  (record { roomy = room; tracks = h }, rw zero-sub),
)
trim_loop_lem max (r ∷ rest) o base room h = elim (Bool-cases (ltb max (length (r ∷ rest)))) [
  | inl over ↦
      let (o', run, h') = forget_lem base r rest o room h in
      let (t, run', (sound, same)) = trim_loop_lem max rest o' (base + 1) (omega arith) h' in
      let dropped : suc (length rest) - max ≡ suc (length rest - max) = ground arith in
      (t, rw (over, add_usize_lem base 1 (omega arith), run) run', (sound, rw dropped same))
  | inr fits ↦
      let kept : suc (length rest) - max ≡ 0 = ground arith in
      (
        record { entries = r ∷ rest; by_id = o; base = base },
        rw fits,
        (record { roomy = room; tracks = h }, rw kept),
      )
]

rebase_empty_lem :
    (xs : List Record) (o : Option Index) (base : ℕ)
    → Tracks base xs o
    → Tracks (if length xs == 0 then 0 else base) xs o
unfolding locate
rebase_empty_lem [] none base h = tt
rebase_empty_lem [] (some m) base h = h
rebase_empty_lem (r ∷ rest) o base h =
    let same : base ≡ (if suc (length rest) == 0 then 0 else base) = ground arith in
    subst (λ b. Tracks b (r ∷ rest) o) same h

-- `trim` keeps the newest `max` records, in order, with a right index, and never panics.
pub trim_lem :
    (max : ℕ) (s : Records)
    → IsSound s
    → Returns (trim max s) λ t. IsSound t × (t.entries ≡ drop (length s.entries - max) s.entries)
unfolding trim
trim_lem max s v =
    let (t, run, (sound, same)) = trim_loop_lem max s.entries s.by_id s.base v.roomy v.tracks in
    (
      rebase_empty t,
      rw run,
      (
        record {
          roomy = ground (arith, sound.roomy);
          tracks = rebase_empty_lem t.entries t.by_id t.base sound.tracks;
        },
        same,
      ),
    )
