-- ===== src/Writer/Rotation/Shifted.antt =====
-- Where the files of a directory stand after `rotate` of src/journal/rotation.rs.
use eventline.Prelude.{
  ℕ, zero, suc, ◌-◌, ◌≤◌, ◌≡◌, ◌||◌, refl, Option, none, some, arith, ◌==◌, ltb, if◌then◌else◌,
  or_else, Option-cases, inl, inr, ap, fun_ext, ◌∙◌,
}
use eventline.Writer.{IoResult}
use eventline.Writer.Rotation.{
  Directory, Denials, denial, rename, ignore_missing, move, shift_backups, rotate,
}

-- The moves of a rotation, from slot `k` down to the log itself.
cascade : Denials → ℕ → Directory → Directory × IoResult
cascade deny zero d = move deny 0 d
cascade deny (suc k) d =
    let (d', r) = move deny (suc k) d in
    let rest = cascade deny k d' in elim r [ some e ↦ (d', some e) | none ↦ rest ]

rotate-cascade : (deny : Denials) (k : ℕ) (d : Directory) → rotate deny (suc k) d ≡ cascade deny k d
unfolding rotate shift_backups cascade
rotate-cascade deny zero d = refl
rotate-cascade deny (suc k) d = ground (arith, rotate-cascade deny k (move deny (suc k) d).0)

-- The slots below this one are not moved, when the moves start at slot `k`.
abbrev pub halts : Denials → ℕ → ℕ
halts deny zero = elim (deny.rename 0) [ none ↦ 0 | some _ ↦ 1 ]
halts deny (suc k) = elim (deny.rename (suc k)) [ none ↦ halts deny k | some _ ↦ suc (suc k) ]

-- The error of the move that was denied, just below.
abbrev pub halted : Denials → ℕ → IoResult
halted deny zero = none
halted deny (suc i) = elim (deny.rename i) [ none ↦ none | some message ↦ some (denial message) ]

-- The files by slot, after the slots from `s` to `k` moved up by one.
abbrev pub moved : ℕ → ℕ → (ℕ → Option ℕ) → ℕ → Option ℕ
moved s k names j =
    if s == suc k
    then names j
    else if ltb j s || ltb (suc k) j
    then names j
    else if j == s
    then none
    else if j == suc k
    then or_else (names k) (names j)
    else names (j - 1)

move_lem :
    (deny : Denials) (k j : ℕ) (d : Directory)
    → ((move deny k d).0.contents ≡ d.contents)
      × ((move deny k d).1 ≡ halted deny (suc k))
      × ((move deny k d).0.names j
          ≡ elim (deny.rename k) [ some _ ↦ d.names j | none ↦ moved k k d.names j ])
unfolding move rename ignore_missing
move_lem deny k j d = ground arith

halts-le : (deny : Denials) (k : ℕ) → halts deny k ≤ suc k
halts-le deny zero = ground arith
halts-le deny (suc k) = ground (arith, halts-le deny k)

-- One move more, from the slot above.
moved-moved :
    (s k j : ℕ) (names : ℕ → Option ℕ)
    → s ≤ suc k
    → moved s k (moved (suc k) (suc k) names) j ≡ moved s (suc k) names j
moved-moved s k j names h = ground arith

cascade-denied :
    (deny : Denials) (k : ℕ) (d : Directory)
    → cascade deny (suc k) d ≡ elim (deny.rename (suc k)) [
      | some message ↦ (d, some (denial message))
      | none ↦ cascade deny k (move deny (suc k) d).0
    ]
unfolding cascade move rename ignore_missing
cascade-denied deny k d = ground arith

move-names :
    (deny : Denials) (k : ℕ) (d : Directory)
    → deny.rename k ≡ none
    → (move deny k d).0.names ≡ moved k k d.names
move-names deny k d h = fun_ext λ j. ground (arith, (move_lem deny k j d).2)

halts-fine :
    (deny : Denials) (k : ℕ) → deny.rename (suc k) ≡ none → halts deny (suc k) ≡ halts deny k
halts-fine deny k h = ground arith

cascade_lem :
    (deny : Denials) (k j : ℕ) (d : Directory)
    → ((cascade deny k d).0.contents ≡ d.contents)
      × ((cascade deny k d).1 ≡ halted deny (halts deny k))
      × ((cascade deny k d).0.names j ≡ moved (halts deny k) k d.names j)
cascade_lem deny zero j d = unfold cascade in ground (arith, move_lem deny 0 j d)
cascade_lem deny (suc k) j d = elim (Option-cases (deny.rename (suc k))) [
  | inl fine ↦
      let later = cascade_lem deny k j (move deny (suc k) d).0 in
      rw (cascade-denied deny k d, halts-fine deny k fine, fine)
        (
          later.0 ∙ (move_lem deny (suc k) j d).0,
          later.1,
          later.2
              ∙ ap (λ names. moved (halts deny k) k names j) (move-names deny (suc k) d fine)
              ∙ moved-moved (halts deny k) k j d.names (halts-le deny k),
        )
  | inr (message, fails) ↦ rw (cascade-denied deny k d) (ground arith)
]

-- With at least one backup to keep, a rotation moves the log and its backups up by one slot, from the
-- oldest that is kept down to the first move that the system denies, which is the error, or down to
-- the log. A missing file is no error, and the oldest backup is only replaced by a file that is
-- there. No bytes of a file change.
pub rotate-moved :
    (deny : Denials) (k : ℕ) (d : Directory)
    → let (d', r) = rotate deny (suc k) d in
      (d'.contents ≡ d.contents)
      × (r ≡ halted deny (halts deny k))
      × ((j : ℕ) → d'.names j ≡ moved (halts deny k) k d.names j)
rotate-moved deny k d =
    rw (rotate-cascade deny k d)
      ((cascade_lem deny k 0 d).0, (cascade_lem deny k 0 d).1, λ j. (cascade_lem deny k j d).2)
