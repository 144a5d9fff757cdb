-- ===== src/Load/Built.antt =====
-- `add_scope` and `add_record` of src/replay/load.rs keep the maps of a builder in step with its lists, lose
-- no record but a duplicate, and do not panic.
use eventline.Prelude.{
  ℕ, zero, suc, ◌≡◌, ◌⊎◌, String, refl, sym, ap, ◌∙◌, Bool, true, false, Option, none, some, List,
  [], ◌∷◌, ◌++◌, inl, inr, arith, ◌==◌, ◌>>=◌, Returns, length, get_elem?, set, position,
  position-append, find?, find?-position, HashMap, insert, Option-cases, Bool-cases, ==_iff,
}
use eventline.Core.{Record, Scope}
use eventline.Load.{
  RunBuilder, conflicting_record, new, add_scope, add_record, keep_record, conflicts, merge,
}

-- The place of the first entry with a key.
abbrev pub Places : {A : Type 0} → (A → ℕ) → HashMap ℕ → List A → Type 0
Places key m xs = (j : ℕ) → m j ≡ position (λ x. key x == j) xs

module _ {A : Type 0} (key : A → ℕ) where
  pub Places-new :
      (m : HashMap ℕ) (xs : List A) (x : A)
      → Places key m xs
      → m (key x) ≡ none
      → Places key (insert m (key x) (length xs)) (xs ++ x ∷ [])
  Places-new m xs x v missing j =
      let e = position-append (λ y. key y == j) xs (x ∷ []) in
      elim (Bool-cases (key x == j)) [
        | inl same ↦
            let absent : position (λ y. key y == j) xs ≡ none =
              ap (λ k. position (λ y. key y == k) xs) (sym ((==_iff (key x) j).0 same))
              ∙ sym (v (key x))
              ∙ missing in
            ground (arith, e, same, absent)
        | inr apart ↦ elim (Option-cases (position (λ y. key y == j) xs)) [
          | inl absent ↦ ground (arith, e, apart, absent, v j)
          | inr (i, there) ↦ ground (arith, e, apart, there, v j)
        ]
      ]

  Places-again :
      (m : HashMap ℕ) (xs : List A) (x : A) (i : ℕ)
      → Places key m xs
      → m (key x) ≡ some i
      → Places key m (xs ++ x ∷ [])
  Places-again m xs x i v there j =
      let e = position-append (λ y. key y == j) xs (x ∷ []) in
      elim (Bool-cases (key x == j)) [
        | inl same ↦
            let here : position (λ y. key y == j) xs ≡ some i =
              ap (λ k. position (λ y. key y == k) xs) (sym ((==_iff (key x) j).0 same))
              ∙ sym (v (key x))
              ∙ there in
            ground (arith, e, here, v j)
        | inr apart ↦ elim (Option-cases (position (λ y. key y == j) xs)) [
          | inl absent ↦ ground (arith, e, apart, absent, v j)
          | inr (k, found) ↦ ground (arith, e, found, v j)
        ]
      ]

  position-set :
      (j i : ℕ) (xs : List A) (y z : A)
      → get_elem? xs i ≡ some y
      → key z ≡ key y
      → position (λ x. key x == j) (set xs i z) ≡ position (λ x. key x == j) xs
  position-set j i [] y z at same = refl
  position-set j zero (x ∷ xs) y z at same = ground (arith, at, same)
  position-set j (suc i) (x ∷ xs) y z at same = ground (arith, position-set j i xs y z at same)

  pub position_there :
      (j i : ℕ) (xs : List A)
      → position (λ x. key x == j) xs ≡ some i
      → (x : A) × (get_elem? xs i ≡ some x) × (key x ≡ j)
  position_there j i [] e = cc
  position_there j zero (x ∷ xs) e = (x, refl, ground (arith, e))
  position_there j (suc i) (x ∷ xs) e =
      let (y, at, same) = position_there j i xs (ground (arith, e)) in (y, at, same)

pub record IsBuilt (b : RunBuilder) : Type 0 where
  pub scopes_placed : Places (λ s. s.id) b.scopes b.run.scopes
  pub records_placed : Places (λ r. r.id) b.records b.run.records

pub new-IsBuilt : (run_id source : Option String) → IsBuilt (new run_id source)
unfolding new
new-IsBuilt run_id source = record { scopes_placed = λ j. refl; records_placed = λ j. refl }

-- A scope is added, or the one that is there is completed; the records stay.
abbrev pub AddsScope : RunBuilder → Scope → RunBuilder → Type 0
AddsScope b s c =
    IsBuilt c
    × (c.run.records ≡ b.run.records)
    × ((j i : ℕ) → b.scopes j ≡ some i → c.scopes j ≡ some i)
    × ((i : ℕ) × (c.scopes s.id ≡ some i))

pub add_scope_lem :
    (b : RunBuilder) (s : Scope)
    → IsBuilt b
    → Returns (add_scope b s) λ (c, conflict). AddsScope b s c
unfolding add_scope merge
add_scope_lem b s v = elim (Option-cases (b.scopes s.id)) [
  | inl e ↦
      let c = record b {
        scopes = insert b.scopes s.id (length b.run.scopes);
        run = record (b.run) { scopes = b.run.scopes ++ s ∷ [] };
      } in
      (
        (c, false),
        rw (add_scope, e),
        (
          record {
            scopes_placed = Places-new (λ t. t.id) b.scopes b.run.scopes s v.scopes_placed e;
            records_placed = v.records_placed;
          },
          refl,
          λ j i there. ground (arith, e, there, ap b.scopes),
          (length b.run.scopes, ground arith),
        ),
      )
  | inr (i, e) ↦
      let (t, at, same) =
        position_there (λ t. t.id) s.id i b.run.scopes (sym (v.scopes_placed s.id) ∙ e) in
      elim (Bool-cases (conflicts t s)) [
        | inl clash ↦
            ((b, true), rw (add_scope, e, ◌>>=◌, at, clash), (v, refl, λ j k there. there, (i, e)))
        | inr fits ↦
            let c = record b { run = record (b.run) { scopes = set b.run.scopes i (merge t s) } } in
            (
              (c, false),
              rw (add_scope, e, ◌>>=◌, at, fits),
              (
                record {
                  scopes_placed = λ j.
                      v.scopes_placed j
                      ∙ sym (position-set (λ t. t.id) j i b.run.scopes t (merge t s) at refl);
                  records_placed = v.records_placed;
                },
                refl,
                λ j k there. there,
                (i, e),
              ),
            )
      ]
]

module _ (same_wire : Record → Record → Bool) where
  -- The first record with an identifier is the same on the wire as this one.
  abbrev pub Repeats : RunBuilder → Record → Record → Type 0
  Repeats b r q = (find? (λ p. p.id == r.id) b.run.records ≡ some q) × (same_wire q r ≡ true)

  -- A record that does not repeat goes to the end; one that does changes nothing.
  abbrev pub AddsRecord : RunBuilder → Record → RunBuilder → Type 0
  AddsRecord b r c =
      IsBuilt c
      × (c.scopes ≡ b.scopes)
      × (c.run.scopes ≡ b.run.scopes)
      × ((((q : Record) → ¬ (Repeats b r q)) × (c.run.records ≡ b.run.records ++ r ∷ []))
          ⊎ ((c ≡ b) × ((q : Record) × Repeats b r q)))

  pub add_record-AddsRecord :
      (b : RunBuilder) (r : Record)
      → IsBuilt b
      → Returns (add_record same_wire b r) λ (c, issue). AddsRecord b r c
  unfolding add_record keep_record
  add_record-AddsRecord b r v = elim (Option-cases (b.records r.id)) [
    | inl e ↦ (
      keep_record same_wire b r (insert b.records r.id (length b.run.records)) none,
      rw (add_record, e),
      (
        record {
          scopes_placed = v.scopes_placed;
          records_placed = Places-new (λ q. q.id) b.records b.run.records r v.records_placed e;
        },
        refl,
        refl,
        inl (
          λ q (there, equal). ground (
            arith,
            there,
            find?-position (λ p. p.id == r.id) b.run.records,
            v.records_placed r.id,
            e,
          ),
          refl,
        ),
      ),
    )
    | inr (i, e) ↦
        let p = λ (x : Record). x.id == r.id in
        let first : find? p b.run.records ≡ get_elem? b.run.records i =
          ground (arith, find?-position p b.run.records, v.records_placed r.id, e) in
        let (q, at, same) =
          position_there (λ q. q.id) r.id i b.run.records (sym (v.records_placed r.id) ∙ e) in
        elim (Bool-cases (same_wire q r)) [
          | inl equal ↦ (
            (b, none),
            rw (add_record, e, ◌>>=◌, at, equal),
            (v, refl, refl, inr (refl, (q, (first ∙ at, equal)))),
          )
          | inr differ ↦ (
            keep_record same_wire b r b.records (some conflicting_record),
            rw (add_record, e, ◌>>=◌, at, differ),
            (
              record {
                scopes_placed = v.scopes_placed;
                records_placed =
                    Places-again (λ q. q.id) b.records b.run.records r i v.records_placed e;
              },
              refl,
              refl,
              inl (λ x (there, equal). ground (arith, there, first, at, differ, equal), refl),
            ),
          )
        ]
  ]
