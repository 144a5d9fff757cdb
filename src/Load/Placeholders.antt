-- ===== src/Load/Placeholders.antt =====
-- The placeholders of `finish` (src/replay/load.rs): what is added behind the scopes of a run.
use eventline.Prelude.{
  ℕ, suc, ◌+◌, ◌≡◌, refl, sym, ap, ◌∙◌, true, false, none, some, List, [], ◌∷◌, ◌++◌, inl, inr, map,
  arith, ◌==◌, if◌then◌else◌, length, length-append, position-append, Option-cases, Bool-cases,
  ==_iff,
}
use mathlib.Core.List.{append-nil, append_assoc}
use eventline.Core.{Scope}
use eventline.Load.{RunBuilder, SavedRun}
use eventline.Load.Finish.{contains, placeholder, with_placeholder, add_missing}
use eventline.Load.Rooted.{find_id, position_id, IsIndexed}

find_id-append :
    (j : ℕ) (scopes : List Scope) (t : Scope)
    → find_id j (scopes ++ t ∷ [])
      ≡ elim (find_id j scopes) [ some s ↦ some s | none ↦ if t.id == j then some t else none ]
find_id-append j [] t = refl
find_id-append j (s ∷ scopes) t = ground (arith, find_id-append j scopes t)

-- A run with placeholders behind its scopes.
abbrev pub filled : SavedRun → List ℕ → SavedRun
filled run added = record run {
  scopes = run.scopes ++ map placeholder added;
  missing_scope_metadata = run.missing_scope_metadata ++ added;
}

filled-none : (run : SavedRun) → filled run [] ≡ run
filled-none run =
    ap
      (λ scopes. record run {
        scopes = scopes;
        missing_scope_metadata = run.missing_scope_metadata ++ [];
      })
      (append-nil run.scopes)
    ∙ ap (λ ids. record run { missing_scope_metadata = ids })
        (append-nil run.missing_scope_metadata)

length_placeholders : (added : List ℕ) → length (map placeholder added) ≡ length added
length_placeholders [] = refl
length_placeholders (id ∷ added) = ap suc (length_placeholders added)

pub filled_size :
    (run : SavedRun) (added : List ℕ)
    → length (filled run added).scopes ≡ length run.scopes + length added
filled_size run added =
    omega (arith, length-append run.scopes (map placeholder added), length_placeholders added)

filled-cons :
    (run : SavedRun) (id : ℕ) (added : List ℕ)
    → filled (filled run (id ∷ [])) added ≡ filled run (id ∷ added)
filled-cons run id added =
    ap
      (λ scopes. record run {
        scopes = scopes;
        missing_scope_metadata = (run.missing_scope_metadata ++ id ∷ []) ++ added;
      })
      (append_assoc run.scopes (placeholder id ∷ []) (map placeholder added))
    ∙ ap
        (λ ids. record run {
          scopes = run.scopes ++ map placeholder (id ∷ added);
          missing_scope_metadata = ids;
        })
        (append_assoc run.missing_scope_metadata (id ∷ []) added)

with_placeholder-IsIndexed :
    (b : RunBuilder) (id : ℕ)
    → IsIndexed b.scopes b.run.scopes
    → b.scopes id ≡ none
    → IsIndexed (with_placeholder b id).scopes (with_placeholder b id).run.scopes
with_placeholder-IsIndexed b id v missing j =
    let e = position-append (λ s. s.id == j) b.run.scopes (placeholder id ∷ []) in
    elim (Bool-cases (id == j)) [
      | inl same ↦
          let absent : position_id j b.run.scopes ≡ none =
            ap (λ k. position_id k b.run.scopes) (sym ((==_iff id j).0 same))
            ∙ sym (v id)
            ∙ missing in
          ground (arith, e, same, absent)
      | inr apart ↦ elim (Option-cases (position_id j b.run.scopes)) [
        | inl absent ↦ ground (arith, e, apart, absent, v j)
        | inr (i, there) ↦ ground (arith, e, apart, there, v j)
      ]
    ]

-- No identifier is repeated.
abbrev pub Once : List ℕ → Type 0
Once [] = Unit
Once (x ∷ xs) = (contains xs x ≡ false) × Once xs

-- The placeholders: every identifier has a scope, the others stay, and no parent link is new. `added` are
-- the identifiers that had no scope.
pub record Filled (b : RunBuilder) (ids : List ℕ) (c : RunBuilder) : Type 0 where
  pub added : List ℕ
  pub once : Once added
  pub run : c.run ≡ filled b.run added
  pub new : (x : ℕ) → contains added x ≡ true → (contains ids x ≡ true) × (b.scopes x ≡ none)
  pub indexed : IsIndexed c.scopes c.run.scopes
  pub kept : (j i : ℕ) → b.scopes j ≡ some i → c.scopes j ≡ some i
  pub there : (x : ℕ) → contains ids x ≡ true → (i : ℕ) × (c.scopes x ≡ some i)
  pub links :
      (j : ℕ) (s : Scope) (p : ℕ)
      → find_id j c.run.scopes ≡ some s
      → s.parent ≡ some p
      → find_id j b.run.scopes ≡ some s
  pub records : c.run.records ≡ b.run.records

pub add_missing_lem :
    (b : RunBuilder) (ids : List ℕ)
    → IsIndexed b.scopes b.run.scopes
    → Filled b ids (add_missing b ids).0
unfolding add_missing
add_missing_lem b [] v = record {
  added = [];
  once = tt;
  run = sym (filled-none b.run);
  new = λ x h. cc;
  indexed = v;
  kept = λ j i e. e;
  there = λ x h. cc;
  links = λ j s p e above. e;
  records = refl;
}
add_missing_lem b (id ∷ ids) v = elim (Option-cases (b.scopes id)) [
  | inr (i, e) ↦
      let f = add_missing_lem b ids v in
      rw (e, add_missing)
        (record {
          added = f.added;
          once = f.once;
          run = f.run;
          new = λ x h. let (needs, absent) = f.new x h in (ground (arith, needs), absent);
          indexed = f.indexed;
          kept = f.kept;
          there = λ x h. elim (Bool-cases (id == x)) [
            | inl same ↦ (i, f.kept x i (ap b.scopes (sym ((==_iff id x).0 same)) ∙ e))
            | inr apart ↦ f.there x (ground (arith, h, apart))
          ];
          links = f.links;
          records = f.records;
        })
  | inl e ↦
      let c = with_placeholder b id in
      let f = add_missing_lem c ids (with_placeholder-IsIndexed b id v e) in
      rw (e, add_missing)
        (record {
          added = id ∷ f.added;
          once = (
            elim (Bool-cases (contains f.added id)) [
              | inl again ↦ absurd (ground (arith, (f.new id again).1))
              | inr fresh ↦ fresh
            ],
            f.once,
          );
          run = f.run ∙ filled-cons b.run id f.added;
          new = λ x h. elim (Bool-cases (id == x)) [
            | inl same ↦ (ground (arith, same), ap b.scopes (sym ((==_iff id x).0 same)) ∙ e)
            | inr apart ↦
                let (needs, absent) = f.new x (ground (arith, h, apart)) in
                (ground (arith, needs), ground (arith, absent, apart))
          ];
          indexed = f.indexed;
          kept = λ j i there. f.kept j i (ground (arith, e, there, ap b.scopes));
          there = λ x h. elim (Bool-cases (id == x)) [
            | inl same ↦
                (length b.run.scopes, f.kept x (length b.run.scopes) (ground (arith, same)))
            | inr apart ↦ f.there x (ground (arith, h, apart))
          ];
          links = λ j s p found above. ground (
            arith,
            f.links j s p found above,
            find_id-append j b.run.scopes (placeholder id),
            above,
          );
          records = f.records;
        })
]
