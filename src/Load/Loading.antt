-- ===== src/Load/Loading.antt =====
-- The loader (src/replay/load.rs) does not panic on any line, and its runs stay well built.
use eventline.Prelude.{
  ℕ, zero, suc, ◌+◌, ◌<◌, ◌≡◌, ◌⊎◌, String, refl, sym, ◌∙◌, Bool, Option, none, some, List, [], ◌∷◌,
  ◌++◌, inl, inr, arith, ◌==◌, if◌then◌else◌, ◌>>=◌, Returns, is_some, length, length-append,
  length-set, get_elem?, set, subst, Option-cases, Bool-cases,
}
use eventline.Core.{Record, Scope}
use eventline.Load.{
  RunBuilder, ReplayIssueKind, new, same_string, conflicting_scope, inferred_run_boundary,
}
use eventline.Load.Built.{IsBuilt, new-IsBuilt, add_scope_lem, add_record-AddsRecord}
use eventline.Load.Lines.{
  Json, Loader, issue, Parts, issue_if, decode, read_decoded, versioned_run, legacy_run,
  legacy_boundary, choose_run, add_scope_if, add_record_if, add_parts, read_line, Line, blank,
  header, bytes, read, read_files,
}

-- Every run is built well.
abbrev pub AllBuilt : List RunBuilder → Type 0
AllBuilt runs = (i : ℕ) (b : RunBuilder) → get_elem? runs i ≡ some b → IsBuilt b

get_elem?-append_last :
    (runs : List RunBuilder) (c : RunBuilder) (i : ℕ)
    → get_elem? (runs ++ c ∷ []) i ≡ elim (get_elem? runs i) [
      | some b ↦ some b
      | none ↦ if i == length runs then some c else none
    ]
get_elem?-append_last [] c zero = refl
get_elem?-append_last [] c (suc i) = ground arith
get_elem?-append_last (b ∷ runs) c zero = refl
get_elem?-append_last (b ∷ runs) c (suc i) = ground (arith, get_elem?-append_last runs c i)

pub AllBuilt-append :
    (runs : List RunBuilder) (c : RunBuilder)
    → AllBuilt runs
    → IsBuilt c
    → AllBuilt (runs ++ c ∷ [])
AllBuilt-append runs c v w i b e = elim (Option-cases (get_elem? runs i)) [
  | inr (d, at) ↦ v i b (ground (arith, e, at, get_elem?-append_last runs c i))
  | inl out ↦
      let same : c ≡ b = ground (arith, e, out, get_elem?-append_last runs c i) in
      subst IsBuilt same w
]

get_elem?-set :
    (runs : List RunBuilder) (c : RunBuilder) (i j : ℕ)
    → (get_elem? (set runs i c) j ≡ get_elem? runs j) ⊎ (get_elem? (set runs i c) j ≡ some c)
get_elem?-set [] c i j = inl refl
get_elem?-set (b ∷ runs) c zero zero = inr refl
get_elem?-set (b ∷ runs) c zero (suc j) = inl refl
get_elem?-set (b ∷ runs) c (suc i) zero = inl refl
get_elem?-set (b ∷ runs) c (suc i) (suc j) = get_elem?-set runs c i j

AllBuilt-set :
    (runs : List RunBuilder) (c : RunBuilder) (i : ℕ)
    → AllBuilt runs
    → IsBuilt c
    → AllBuilt (set runs i c)
AllBuilt-set runs c i v w j b e = elim (get_elem?-set runs c i j) [
  | inl same ↦ v j b (sym same ∙ e)
  | inr here ↦ let at : c ≡ b = ground (arith, here, e) in subst IsBuilt at w
]

get_elem?-less :
    (runs : List RunBuilder) (i : ℕ)
    → i < length runs
    → (b : RunBuilder) × (get_elem? runs i ≡ some b)
get_elem?-less [] i h = absurd (omega arith)
get_elem?-less (b ∷ runs) zero h = (b, refl)
get_elem?-less (b ∷ runs) (suc i) h = get_elem?-less runs i (omega arith)

-- The invariant of a loader.
pub record IsLoading (l : Loader) : Type 0 where
  pub built : AllBuilt l.runs
  pub placed : (id : String) (i : ℕ) → l.by_id id ≡ some i → i < length l.runs
  pub current : (i : ℕ) → l.legacy ≡ some i → i < length l.runs

-- A run was chosen that is there.
abbrev Chosen : Loader × ℕ → Type 0
Chosen (l, i) = IsLoading l × (i < length l.runs)

versioned_run_lem :
    (l : Loader) (source : Option String) (id : String)
    → IsLoading l
    → Chosen (versioned_run l source id)
unfolding versioned_run
versioned_run_lem l source id v = elim (Option-cases (l.by_id id)) [
  | inr (i, e) ↦
      rw (versioned_run, e)
        (record { built = v.built; placed = v.placed; current = λ k h. cc }, v.placed id i e)
  | inl e ↦
      let size = length-append l.runs (new (some id) source ∷ []) in
      rw (versioned_run, e)
        (
          record {
            built =
                AllBuilt-append l.runs (new (some id) source) v.built
                  (new-IsBuilt (some id) source);
            placed = λ k i h. elim (Bool-cases (same_string id k)) [
              | inl same ↦ ground (arith, size, same, h)
              | inr apart ↦ omega (arith, size, v.placed k i (ground (arith, apart, h)))
            ];
            current = λ k h. cc;
          },
          omega (arith, size),
        )
]

legacy_run_lem : (l : Loader) (source : Option String) → IsLoading l → Chosen (legacy_run l source)
unfolding legacy_run
legacy_run_lem l source v = elim (Option-cases l.legacy) [
  | inr (i, e) ↦ rw (legacy_run, e) (v, v.current i e)
  | inl e ↦
      let size = length-append l.runs (new none source ∷ []) in
      rw (legacy_run, e)
        (
          record {
            built = AllBuilt-append l.runs (new none source) v.built (new-IsBuilt none source);
            placed = λ k i h. omega (arith, size, v.placed k i h);
            current = λ i h. ground (arith, size, h);
          },
          omega (arith, size),
        )
]

legacy_boundary_lem :
    (l : Loader) (source : Option String) (line : ℕ) (r : Option Record)
    → IsLoading l
    → Returns (legacy_boundary l source line r) IsLoading
unfolding legacy_boundary issue
legacy_boundary_lem l source line r v = elim (Option-cases l.legacy) [
  | inl e ↦ (l, simp (legacy_boundary, e), v)
  | inr (i, e) ↦ elim (Option-cases r) [
    | inl e' ↦ (l, simp (legacy_boundary, e, e'), v)
    | inr (q, e') ↦
        let (b, at) = get_elem?-less l.runs i (v.current i e) in
        elim (Bool-cases (is_some (b.records q.id))) [
          | inl again ↦ (
            record (issue l source line inferred_run_boundary) { legacy = none },
            rw (legacy_boundary, e, e', ◌>>=◌, at, again),
            record { built = v.built; placed = v.placed; current = λ k h. cc },
          )
          | inr first ↦ (l, simp (legacy_boundary, e, e', ◌>>=◌, at, first), v)
        ]
  ]
]

choose_run_lem :
    (l : Loader) (source : Option String) (line : ℕ) (run_id : Option String) (r : Option Record)
    → IsLoading l
    → Returns (choose_run l source line run_id r) Chosen
unfolding choose_run
choose_run_lem l source line (some id) r v =
    (versioned_run l source id, refl, versioned_run_lem l source id v)
choose_run_lem l source line none r v =
    let (k, run, w) = legacy_boundary_lem l source line r v in
    (legacy_run k source, rw run, legacy_run_lem k source w)

add_scope_if_lem :
    (b : RunBuilder) (s : Option Scope)
    → IsBuilt b
    → Returns (add_scope_if b s) λ (c, kind). IsBuilt c
unfolding add_scope_if
add_scope_if_lem b none v = ((b, none), refl, v)
add_scope_if_lem b (some s) v =
    let ((c, conflict), run, w) = add_scope_lem b s v in
    ((c, if conflict then some conflicting_scope else none), rw run, w.0)

issue_if-IsLoading :
    (l : Loader) (source : Option String) (line : ℕ) (o : Option ReplayIssueKind)
    → IsLoading l
    → IsLoading (issue_if l source line o)
unfolding issue
issue_if-IsLoading l source line none v = v
issue_if-IsLoading l source line (some kind) v = record {
  built = v.built;
  placed = v.placed;
  current = v.current;
}

-- The headers do not matter to a builder.
pub IsBuilt-headers :
    (b : RunBuilder) (headers : List String)
    → IsBuilt b
    → IsBuilt (record b { run = record (b.run) { headers = headers } })
IsBuilt-headers b headers v = record {
  scopes_placed = v.scopes_placed;
  records_placed = v.records_placed;
}

module _ (same_wire : Record → Record → Bool) where
  add_record_if_lem :
      (b : RunBuilder) (r : Option Record)
      → IsBuilt b
      → Returns (add_record_if same_wire b r) λ (c, kind). IsBuilt c
  unfolding add_record_if
  add_record_if_lem b none v = ((b, none), refl, v)
  add_record_if_lem b (some r) v =
      let (c, run, w) = add_record-AddsRecord same_wire b r v in (c, run, w.0)

  add_parts_lem :
      (l : Loader) (source : Option String) (line i : ℕ) (parts : Parts)
      → IsLoading l
      → i < length l.runs
      → Returns (add_parts same_wire l source line i parts) IsLoading
  unfolding add_parts
  add_parts_lem l source line i (r, s) v less =
      let (b, at) = get_elem?-less l.runs i less in
      let b' = record b { run = record (b.run) { headers = b.run.headers ++ l.headers } } in
      let ((c, first), run, w) =
        add_scope_if_lem b' s (IsBuilt-headers b (b.run.headers ++ l.headers) (v.built i b at)) in
      let ((d, second), run', w') = add_record_if_lem c r w in
      let k = record l { runs = set l.runs i d; headers = [] } in
      let size = length-set l.runs i d in
      let u : IsLoading k = record {
        built = AllBuilt-set l.runs d i v.built w';
        placed = λ id j h. omega (arith, size, v.placed id j h);
        current = λ j h. omega (arith, size, v.current j h);
      } in
      (
        issue_if (issue_if k source line first) source line second,
        rw (at, ◌>>=◌, run, run'),
        issue_if-IsLoading (issue_if k source line first) source line second
            (issue_if-IsLoading k source line first u),
      )

  module _ {J : Type 0} (json : Json J) where
    read_decoded_lem :
        (l : Loader) (source : Option String) (line : ℕ)
        (d : ReplayIssueKind ⊎ (Option String × Parts))
        → IsLoading l
        → Returns (read_decoded same_wire json l source line d) IsLoading
    unfolding read_decoded issue
    read_decoded_lem l source line (inl kind) v = (
      issue l source line kind,
      refl,
      record { built = v.built; placed = v.placed; current = v.current },
    )
    read_decoded_lem l source line (inr (run_id, parts)) v =
        let ((k, i), run, (w, less)) = choose_run_lem l source line run_id parts.0 v in
        let (m, run', u) = add_parts_lem k source line i parts w less in
        (m, rw (run, ◌>>=◌) run', u)

    read_lem :
        (l : Loader) (source : Option String) (line : ℕ) (lines : List (Line same_wire json))
        → IsLoading l
        → Returns (read same_wire json l source line lines) IsLoading
    unfolding read read_line
    read_lem l source line [] v = (l, refl, v)
    read_lem l source line (blank ∷ lines) v = read_lem l source (line + 1) lines v
    read_lem l source line (header text ∷ lines) v =
        read_lem (record l { headers = l.headers ++ text ∷ []; legacy = none }) source (line + 1)
          lines (record { built = v.built; placed = v.placed; current = λ k h. cc })
    read_lem l source line (bytes value ∷ lines) v =
        let (k, run, w) = read_decoded_lem l source (line + 1) (decode json value) v in
        let (m, run', u) = read_lem k source (line + 1) lines w in (m, rw (run, ◌>>=◌) run', u)

    pub read_files_lem :
        (l : Loader) (files : List (Option String × List (Line same_wire json)))
        → IsLoading l
        → Returns (read_files same_wire json l files) IsLoading
    unfolding read_files
    read_files_lem l [] v = (l, refl, v)
    read_files_lem l ((source, lines) ∷ files) v =
        let (k, run, w) = read_lem l source 0 lines v in
        let (m, run', u) = read_files_lem k files w in (m, rw (run, ◌>>=◌) run', u)
