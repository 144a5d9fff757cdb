-- ===== src/Load/Appending.antt =====
-- What `add_scope` and `add_record` of src/replay/load.rs do with an identifier that is new, and with a scope
-- that is there.
use eventline.Prelude.{
  ℕ, zero, suc, ◌≡◌, refl, ◌∙◌, Bool, true, false, Option, none, some, String, List, [], ◌∷◌, ◌++◌,
  inl, inr, arith, ◌==◌, ◌>>=◌, ok, Returns, length, get_elem?, set, position, find?, insert,
  Option-cases, or_else, find?-position,
}
use eventline.Core.{Record, Scope}
use eventline.Load.{
  RunBuilder, add_scope, add_record, keep_record, conflicts, merge, both_differ, same_string,
  same_option, same_string_refl, accepted,
}
use eventline.Load.Built.{IsBuilt, Places-new}

-- A scope with a new identifier goes to the end.
pub add_scope-new :
    (b : RunBuilder) (s : Scope)
    → IsBuilt b
    → position (λ t. t.id == s.id) b.run.scopes ≡ none
    → Returns
        (add_scope b s)
        λ (c, conflict). IsBuilt c × (c.run ≡ record (b.run) { scopes = b.run.scopes ++ s ∷ [] })
unfolding add_scope
add_scope-new b s v absent =
    let e : b.scopes s.id ≡ none = v.scopes_placed s.id ∙ absent in
    (
      (
        record b {
          scopes = insert b.scopes s.id (length b.run.scopes);
          run = record (b.run) { scopes = b.run.scopes ++ s ∷ [] };
        },
        false,
      ),
      rw (add_scope, e),
      (
        record {
          scopes_placed = Places-new (λ t. t.id) b.scopes b.run.scopes s v.scopes_placed e;
          records_placed = v.records_placed;
        },
        refl,
      ),
    )

same_parent_refl : (n : Option ℕ) → same_option ◌==◌ n n ≡ true
same_parent_refl none = refl
same_parent_refl (some n) = ground arith

same_name_refl : (n : Option String) → same_option same_string n n ≡ true
same_name_refl none = refl
same_name_refl (some s) = same_string_refl s

both_differ_refl : (n : Option ℕ) → both_differ n n ≡ false
both_differ_refl none = refl
both_differ_refl (some n) = ground arith

==_refl : (n : ℕ) → (n == n) ≡ true
==_refl n = ground arith

conflicts_refl : (s : Scope) → conflicts s s ≡ false
unfolding conflicts
conflicts_refl s =
    simp (same_parent_refl s.parent, ==_refl, same_name_refl s.name, both_differ_refl s.exited_at)

or_else_same : {A : Type 0} (o : Option A) → or_else o o ≡ o
or_else_same none = refl
or_else_same (some a) = refl

accepted_same : (accept : Bool) (o : Option String) → accepted accept o o ≡ o
accepted_same accept o = ground arith

merge_same : (s : Scope) → merge s s ≡ s
unfolding merge
merge_same s = simp (or_else_same, accepted_same)

set_same : {A : Type 0} (i : ℕ) (xs : List A) (x : A) → get_elem? xs i ≡ some x → set xs i x ≡ xs
set_same i [] x e = refl
set_same zero (y ∷ ys) x e = ground (arith, e)
set_same (suc i) (y ∷ ys) x e = ground (arith, set_same i ys x)

-- A scope that is there, as it is, changes nothing.
pub add_scope-there :
    (b : RunBuilder) (s : Scope)
    → IsBuilt b
    → find? (λ t. t.id == s.id) b.run.scopes ≡ some s
    → add_scope b s ≡ ok (b, false)
unfolding add_scope
add_scope-there b s v found =
    let p = λ (t : Scope). t.id == s.id in
    elim (Option-cases (position p b.run.scopes)) [
      | inl absent ↦ absurd (ground (arith, found, absent, find?-position p b.run.scopes))
      | inr (i, there) ↦
          let at : get_elem? b.run.scopes i ≡ some s =
            ground (arith, found, there, find?-position p b.run.scopes) in
          rw (
            add_scope,
            v.scopes_placed s.id ∙ there,
            ◌>>=◌,
            at,
            conflicts_refl s,
            merge_same s,
            set_same i b.run.scopes s at,
          )
    ]

module _ (same_wire : Record → Record → Bool) where
  -- A record with a new identifier goes to the end.
  pub add_record-new :
      (b : RunBuilder) (r : Record)
      → IsBuilt b
      → position (λ q. q.id == r.id) b.run.records ≡ none
      → Returns
          (add_record same_wire b r)
          λ (c, issue). IsBuilt c × (c.run ≡ record (b.run) { records = b.run.records ++ r ∷ [] })
  unfolding add_record keep_record
  add_record-new b r v absent =
      let e : b.records r.id ≡ none = v.records_placed r.id ∙ absent in
      (
        keep_record same_wire b r (insert b.records r.id (length b.run.records)) none,
        rw (add_record, e),
        (
          record {
            scopes_placed = v.scopes_placed;
            records_placed = Places-new (λ q. q.id) b.records b.run.records r v.records_placed e;
          },
          refl,
        ),
      )
