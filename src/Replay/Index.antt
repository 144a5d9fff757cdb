-- ===== src/Replay/Index.antt =====
-- `ReplayIndex` (src/replay.rs) answers as a search of the snapshot does.
use eventline.Prelude.{
  ℕ, ◌≡◌, or_else, refl, sym, ap, ◌∙◌, Option, none, some, List, [], ◌∷◌, ◌++◌, inl, inr, arith,
  ◌==◌, if◌then◌else◌, filter, find?, HashMap, no_keys, Option-cases, Bool-cases,
}
use eventline.Core.{Record, Scope}
use eventline.Replay.{
  or_insert, in_scope, index_from, index_scopes, records_for_scope, scope_outcomes, push_in_scope,
  index_records, new, scope, get_record, indexed_for_scope, indexed_outcomes,
}
use mathlib.Core.List.{append-nil, append_assoc}

-- What is in the map stays; the first scope of an identifier is added.
index_from_lem :
    (m : HashMap Scope) (scopes : List Scope) (id : ℕ)
    → index_from m scopes id ≡ or_else (m id) (find? (λ s. s.id == id) scopes)
unfolding index_from
index_from_lem m [] id = ground arith
index_from_lem m (s ∷ scopes) id = index_from_lem (or_insert m s.id s) scopes id ∙ ground arith

pub index_scopes_lem :
    (scopes : List Scope) (id : ℕ) → index_scopes scopes id ≡ find? (λ s. s.id == id) scopes
unfolding index_scopes
index_scopes_lem scopes id = index_from_lem no_keys scopes id

index_records_ids :
    (m : HashMap Record) (n : HashMap (List Record)) (records : List Record) (id : ℕ)
    → (index_records m n records).0 id ≡ or_else (m id) (find? (λ r. r.id == id) records)
unfolding index_records
index_records_ids m n [] id = ground arith
index_records_ids m n (r ∷ records) id =
    index_records_ids (or_insert m r.id r) (push_in_scope n r.scope r) records id ∙ ground arith

-- The records under a key; none under a missing one.
abbrev listed : Option (List Record) → List Record
listed none = []
listed (some rs) = rs

push_in_scope_lem :
    (n : HashMap (List Record)) (o : Option ℕ) (r : Record) (id : ℕ)
    → r.scope ≡ o
    → listed (push_in_scope n o r id) ≡ listed (n id) ++ (if in_scope id r then r ∷ [] else [])
unfolding push_in_scope
push_in_scope_lem n none r id e = rw e (sym (append-nil (listed (n id))))
push_in_scope_lem n (some s) r id e = elim (Bool-cases (s == id)) [
  | inl same ↦ elim (Option-cases (n s)) [
    | inl missing ↦ ground (arith, e, same, missing)
    | inr (rs, there) ↦ ground (arith, e, same, there)
  ]
  | inr apart ↦ rw (e, apart) (sym (append-nil (listed (n id))))
]

index_records_scopes :
    (m : HashMap Record) (n : HashMap (List Record)) (records : List Record) (id : ℕ)
    → listed ((index_records m n records).1 id) ≡ listed (n id) ++ filter (in_scope id) records
unfolding index_records
index_records_scopes m n [] id = sym (append-nil (listed (n id)))
index_records_scopes m n (r ∷ records) id =
    index_records_scopes (or_insert m r.id r) (push_in_scope n r.scope r) records id
    ∙ ap (λ rs. rs ++ filter (in_scope id) records) (push_in_scope_lem n r.scope r id refl)
    ∙ append_assoc (listed (n id)) (if in_scope id r then r ∷ [] else [])
        (filter (in_scope id) records)
    ∙ ap (◌++◌ (listed (n id)))
        (elim (Bool-cases (in_scope id r)) [ inl here ↦ rw here | inr away ↦ rw away ])

-- For every snapshot, an index answers as the snapshot itself does: the first scope and the first
-- record with an identifier, the records of a scope in their order, and the outcomes in record
-- order, whatever duplicates and conflicts it holds.
pub new-snapshot :
    (records : List Record) (scopes : List Scope) (id : ℕ)
    → let ix = new records scopes in
      (scope ix id ≡ find? (λ s. s.id == id) scopes)
      × (get_record ix id ≡ find? (λ r. r.id == id) records)
      × (indexed_for_scope ix id ≡ records_for_scope records id)
      × (indexed_outcomes ix ≡ scope_outcomes records scopes)
unfolding new scope get_record indexed_for_scope indexed_outcomes records_for_scope scope_outcomes
new-snapshot records scopes id = (
  index_scopes_lem scopes id,
  index_records_ids no_keys no_keys records id,
  index_records_scopes no_keys no_keys records id,
  refl,
)
