-- ===== src/Load/Walk.antt =====
-- One walk of the cycle repair in `finish` (src/replay/load.rs): it ends within its fuel, does not panic,
-- and roots every scope on its path.
use eventline.Prelude.{
  ℕ, zero, suc, ◌≤◌, ◌<◌, ◌≡◌, ◌⊎◌, refl, sym, ap, ◌∙◌, true, false, Option, none, some, List, [],
  ◌∷◌, inl, inr, arith, ◌==◌, if◌then◌else◌, ◌>>=◌, Returns, length, length-set, get_elem?, subst,
  HashMap, Option-cases, Bool-cases, ==_iff,
}
use eventline.Core.{Scope}
use eventline.Load.Finish.{cut_at, contains, Walked, walk}
use eventline.Load.Rooted.{
  position_id, IsIndexed, Rooted, at_position, position-cut, cut_root, Rooted-cut,
}
use eventline.Load.Chains.{
  Chain, AllRooted, Closed, Chain-under, Chain-top, Chain-cut, Closed-cut, Cuts, cut_elem,
  Chain-Inside, no_root,
}

-- The scopes that are not on a path.
pub unvisited : List ℕ → List Scope → ℕ
unvisited path [] = 0
unvisited path (s ∷ scopes) =
    if contains path s.id then unvisited path scopes else suc (unvisited path scopes)

pub unvisited_bound : (path : List ℕ) (scopes : List Scope) → unvisited path scopes ≤ length scopes
unfolding unvisited
unvisited_bound path [] = omega arith
unvisited_bound path (s ∷ scopes) = ground (arith, unvisited_bound path scopes)

unvisited_more :
    (x : ℕ) (path : List ℕ) (scopes : List Scope)
    → unvisited (x ∷ path) scopes ≤ unvisited path scopes
unfolding unvisited
unvisited_more x path [] = omega arith
unvisited_more x path (s ∷ scopes) = ground (arith, unvisited_more x path scopes)

unvisited_less :
    (x i : ℕ) (path : List ℕ) (scopes : List Scope)
    → position_id x scopes ≡ some i
    → contains path x ≡ false
    → unvisited (x ∷ path) scopes < unvisited path scopes
unfolding unvisited
unvisited_less x i path [] e h = cc
unvisited_less x i path (s ∷ scopes) e h = elim (Bool-cases (s.id == x)) [
  | inl here ↦
      let same : s.id ≡ x = (==_iff s.id x).0 here in
      ground (arith, unvisited_more x path scopes, ap (contains path) same, h)
  | inr apart ↦ elim (Option-cases (position_id x scopes)) [
    | inl missing ↦ absurd (ground (arith, e, apart, missing))
    | inr (k, there) ↦ ground (arith, unvisited_less x k path scopes there h)
  ]
]

-- What a walk has to start from.
pub record Ready (index : HashMap ℕ) (visited : List ℕ) (scopes : List Scope) : Type 0 where
  pub indexed : IsIndexed index scopes
  pub closed : Closed index scopes
  pub rooted : AllRooted scopes visited

-- What a walk from `current` leaves.
pub record Leaves (index : HashMap ℕ) (visited : List ℕ) (scopes : List Scope) (path : List ℕ)
    (current : Option ℕ) (w : Walked) : Type 0 where
  pub indexed : IsIndexed index w.scopes
  pub closed : Closed index w.scopes
  pub size : length w.scopes ≡ length scopes
  pub kept : (j : ℕ) → Rooted scopes j → Rooted w.scopes j
  pub found : (j : ℕ) → position_id j w.scopes ≡ position_id j scopes
  pub cuts : Cuts scopes w.scopes
  pub longer : (x : ℕ) → contains path x ≡ true → contains w.path x ≡ true
  pub rooted : AllRooted w.scopes w.path
  pub reached :
      (id : ℕ) → current ≡ some id → (contains w.path id ≡ true) ⊎ (contains visited id ≡ true)

-- The end of a walk that changes nothing.
stay :
    (index : HashMap ℕ) (visited : List ℕ) (scopes : List Scope) (path : List ℕ)
    (current : Option ℕ)
    → Ready index visited scopes
    → AllRooted scopes path
    → ((id : ℕ) → current ≡ some id → contains visited id ≡ true)
    → Leaves index visited scopes path current
        (record { scopes = scopes; path = path; cut = false })
stay index visited scopes path current v r h = record {
  indexed = v.indexed;
  closed = v.closed;
  size = refl;
  kept = λ j r. r;
  found = λ j. refl;
  cuts = λ k t at. inl at;
  longer = λ x h. h;
  rooted = r;
  reached = λ id e. inr (h id e);
}

-- The end of a walk that cuts the scope it came back to.
cut_lem :
    (index : HashMap ℕ) (visited : List ℕ) (scopes : List Scope) (path : List ℕ) (id i : ℕ)
    (s : Scope)
    → Ready index visited scopes
    → position_id id scopes ≡ some i
    → get_elem? scopes i ≡ some s
    → s.id ≡ id
    → Chain scopes path (some id)
    → contains path id ≡ true
    → Leaves index visited scopes path
        (some id)
        (record { scopes = cut_at scopes i s; path = path; cut = true })
cut_lem index visited scopes path id i s v e at same c h = record {
  indexed = λ j. v.indexed j ∙ sym (position-cut j i s scopes at);
  closed = Closed-cut index id i s scopes e at same v.closed;
  size = length-set scopes i (record s { parent = none });
  kept = λ j r. Rooted-cut id i s scopes e at same r;
  found = λ j. position-cut j i s scopes at;
  cuts = λ k t there. elim (cut_elem scopes i s k t at there) [
    | inl stays ↦ inl stays
    | inr (cut, at_t) ↦ inr (
      cut,
      subst (λ n. ¬ Rooted scopes n) (sym same ∙ ap (λ (u : Scope). u.id) at_t)
          (no_root scopes path (Chain-Inside scopes path path id c h (λ y e. e)) id h),
    )
  ];
  longer = λ x h. h;
  rooted = Chain-cut id i s scopes e at same path id c (cut_root id i s scopes e at same);
  reached = λ j e'. inl (ground (arith, e', h));
}

pub walk_lem :
    (fuel : ℕ) (index : HashMap ℕ) (visited : List ℕ) (scopes : List Scope) (path : List ℕ)
    (current : Option ℕ)
    → Ready index visited scopes
    → Chain scopes path current
    → ((id : ℕ) → current ≡ some id → (i : ℕ) × (index id ≡ some i))
    → unvisited path scopes < fuel
    → Returns
        (walk fuel index visited scopes path current)
        (Leaves index visited scopes path current)
unfolding walk
walk_lem zero index visited scopes path current v c there enough = absurd (omega arith)
walk_lem (suc fuel) index visited scopes path none v c there enough = (
  record { scopes = scopes; path = path; cut = false },
  refl,
  stay index visited scopes path none v (Chain-top scopes path c)
      (λ id e. absurd (ground (arith, e))),
)
walk_lem (suc fuel) index visited scopes path (some id) v c there enough =
    let (i, at_index) = there id refl in
    let e : position_id id scopes ≡ some i = sym (v.indexed id) ∙ at_index in
    let (s, at, same, found) = at_position id i scopes e in
    elim (Bool-cases (contains visited id)) [
      | inl before ↦ (
        record { scopes = scopes; path = path; cut = false },
        rw (walk, before),
        stay index visited scopes path (some id) v
            (Chain-under scopes path id c (v.rooted id before))
            (λ j e'. ground (arith, e', before)),
      )
      | inr fresh ↦ elim (Bool-cases (contains path id)) [
        | inl again ↦ (
          record { scopes = cut_at scopes i s; path = path; cut = true },
          rw (walk, fresh, at_index, ◌>>=◌, at, again),
          cut_lem index visited scopes path id i s v e at same c again,
        )
        | inr forward ↦
            let (w, run, l) =
              walk_lem fuel index visited scopes (id ∷ path) s.parent v ((s, found, refl), c)
                (λ p above. v.closed id s p found above)
                (omega (arith, unvisited_less id i path scopes e forward, enough)) in
            (
              w,
              rw (walk, fresh, at_index, ◌>>=◌, at, forward) run,
              record {
                indexed = l.indexed;
                closed = l.closed;
                size = l.size;
                kept = l.kept;
                found = l.found;
                cuts = l.cuts;
                longer = λ x h. l.longer x (ground (arith, h));
                rooted = l.rooted;
                reached = λ j e'. inl (l.longer j (ground (arith, e')));
              },
            )
      ]
    ]
