-- ===== src/Wire/Building.antt =====
-- A builder (src/replay/load.rs) that is given the scopes and records of an export.
use eventline.Prelude.{
  ℕ, suc, ◌≤◌, ◌≡◌, refl, sym, ap, ◌∙◌, Bool, Option, none, some, String, List, [], ◌∷◌, ◌++◌,
  if◌then◌else◌, inl, inr, subst, arith, ◌==◌, ◌>>=◌, Returns, position, position-append, find?,
  Bool-cases,
}
use eventline.Core.{Record, Scope}
use eventline.Replay.{index_scopes}
use eventline.Replay.Index.{index_scopes_lem}
use eventline.Load.{RunBuilder, SavedRun, conflicting_scope}
use eventline.Load.Appending.{add_scope-new, add_scope-there, add_record-new}
use eventline.Load.Lines.{add_scope_if, add_record_if}
use eventline.Wire.{scope_among}
use eventline.Wire.Decoding.{Beside}
use eventline.Wire.Holding.{Builds}

-- No key from `lo` on is there.
abbrev pub Below : {A : Type 0} → (A → ℕ) → ℕ → List A → Type 0
Below key lo xs = (id : ℕ) → lo ≤ id → position (λ x. key x == id) xs ≡ none

pub Below-append :
    {A : Type 0} (key : A → ℕ) (lo : ℕ) (xs : List A) (x : A)
    → Below key lo xs
    → lo ≤ key x
    → Below key (suc (key x)) (xs ++ x ∷ [])
Below-append key lo xs x v h id less =
    ground (arith, position-append (λ y. key y == id) xs (x ∷ []), v id)

find?-id :
    (id : ℕ) (scopes : List Scope) (s : Scope) → find? (λ t. t.id == id) scopes ≡ some s → s.id ≡ id
find?-id id [] s e = cc
find?-id id (t ∷ scopes) s e = elim (Bool-cases (t.id == id)) [
  | inl same ↦ ground (arith, e, same)
  | inr apart ↦ find?-id id scopes s (ground (arith, e, apart))
]

-- A scope that stands there as the first of its identifier.
abbrev pub First : List Scope → Option Scope → Type 0
First scopes o = (s : Scope) → o ≡ some s → find? (λ t. t.id == s.id) scopes ≡ some s

-- The embedded scope is the one that the record names, and it is there.
found-Beside :
    (scopes : List Scope) (r : Record) (id : ℕ) (o : Option Scope)
    → r.scope ≡ some id
    → index_scopes scopes id ≡ o
    → Beside r o × First scopes o
found-Beside scopes r id none e hit = (tt, λ s h. cc)
found-Beside scopes r id (some s) e hit =
    let found : find? (λ t. t.id == id) scopes ≡ some s = sym (index_scopes_lem scopes id) ∙ hit in
    let same : s.id ≡ id = find?-id id scopes s found in
    (
      e ∙ ap some (sym same),
      λ t h.
          subst (λ u. find? (λ x. x.id == u.id) scopes ≡ some u)
            (ap (λ o. elim o [ none ↦ s | some u ↦ u ]) h)
            (ap (λ k. find? (λ x. x.id == k) scopes) same ∙ found),
    )

pub scope_among-Beside :
    (scopes : List Scope) (r : Record) (o : Option ℕ)
    → r.scope ≡ o
    → Beside r (scope_among scopes o) × First scopes (scope_among scopes o)
scope_among-Beside scopes r none e = (tt, λ s h. cc)
scope_among-Beside scopes r (some id) e = found-Beside scopes r id (index_scopes scopes id) e refl

module _ (run_id : String) where
  pub add_scope_if-Builds :
      (scopes : List Scope) (records : List Record) (s : Scope)
      → position (λ t. t.id == s.id) scopes ≡ none
      → (b : RunBuilder) → Builds run_id scopes records b
      → Returns (add_scope_if b (some s)) λ (c, kind). Builds run_id (scopes ++ s ∷ []) records c
  unfolding add_scope_if
  add_scope_if-Builds scopes records s absent b (v, made) =
      let ((c, conflict), run, (w, e)) =
        add_scope-new b s v (ap (λ r. position (λ t. t.id == s.id) r.scopes) made ∙ absent) in
      (
        (c, if conflict then some conflicting_scope else none),
        rw run,
        (w, e ∙ ap (λ (r : SavedRun). record r { scopes = r.scopes ++ s ∷ [] }) made),
      )

  pub embedded_if-Builds :
      (scopes : List Scope) (records : List Record) (o : Option Scope)
      → ((s : Scope) → o ≡ some s → find? (λ t. t.id == s.id) scopes ≡ some s)
      → (b : RunBuilder) → Builds run_id scopes records b
      → Returns (add_scope_if b o) λ (c, kind). Builds run_id scopes records c
  unfolding add_scope_if
  embedded_if-Builds scopes records none there b v = ((b, none), refl, v)
  embedded_if-Builds scopes records (some s) there b (v, made) = (
    (b, none),
    rw (
      add_scope_if,
      add_scope-there b s v (ap (λ r. find? (λ t. t.id == s.id) r.scopes) made ∙ there s refl),
      ◌>>=◌,
    ),
    (v, made),
  )

  pub add_record_if-Builds :
      (same_wire : Record → Record → Bool) (scopes : List Scope) (records : List Record)
      (r : Record)
      → position (λ q. q.id == r.id) records ≡ none
      → (b : RunBuilder) → Builds run_id scopes records b
      → Returns
          (add_record_if same_wire b (some r))
          λ (c, kind). Builds run_id scopes (records ++ r ∷ []) c
  unfolding add_record_if
  add_record_if-Builds same_wire scopes records r absent b (v, made) =
      let (c, run, (w, e)) =
        add_record-new same_wire b r v
          (ap (λ t. position (λ q. q.id == r.id) t.records) made ∙ absent) in
      (c, run, (w, e ∙ ap (λ (t : SavedRun). record t { records = t.records ++ r ∷ [] }) made))
