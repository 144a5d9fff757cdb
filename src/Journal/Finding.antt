-- ===== src/Journal/Finding.antt =====
-- Which scope is found under an identifier after `enter_scope` and `exit_scope` (src/journal/mod.rs).
use eventline.Prelude.{
  ℕ, suc, ◌≤◌, ◌≡◌, ◌≢◌, refl, true, false, none, some, List, [], ◌∷◌, ◌++◌, inl, inr, arith, ◌==◌,
  if◌then◌else◌, Option-cases, Bool-cases,
}
use eventline.Buffer.Scopes.{BufferedScope}
use eventline.Buffer.Scopes.{is_closed}
use eventline.Buffer.Scopes.Exit.{exited, exit_duration}
use eventline.Buffer.Scopes.Update.{find_scope, modify_first}
use eventline.Buffer.Scopes.Closing.{vector_finalize}
use eventline.Journal.Ids.{Ascends, Ascends-bounds}
use eventline.Journal.Valid.{scope_ids}

-- An identifier that the counter has not given out is not found.
pub find_scope-fresh :
    (lo hi i : ℕ) (bs : List BufferedScope)
    → Ascends lo (scope_ids bs) hi
    → hi ≤ i
    → find_scope i bs ≡ none
find_scope-fresh lo hi i [] a h = refl
find_scope-fresh lo hi i (b ∷ bs) a h = ground (
  arith,
  find_scope-fresh (suc b.scope.id) hi i bs a.1 h,
  Ascends-bounds (suc b.scope.id) hi (scope_ids bs) a.1,
)

-- One more scope at the end is found under its identifier and hides no other.
pub find_scope-append :
    (i : ℕ) (bs : List BufferedScope) (c : BufferedScope)
    → find_scope i (bs ++ c ∷ [])
      ≡ elim (find_scope i bs) [ some b ↦ some b | none ↦ if c.scope.id == i then some c else none ]
find_scope-append i [] c = refl
find_scope-append i (b ∷ bs) c = ground (arith, find_scope-append i bs c)

pub find_scope-other :
    (i id : ℕ) (f : BufferedScope → BufferedScope) (bs : List BufferedScope)
    → ((b : BufferedScope) → (f b).scope.id ≡ b.scope.id)
    → i ≢ id
    → find_scope i (modify_first id f bs) ≡ find_scope i bs
unfolding modify_first
find_scope-other i id f [] keeps apart = refl
find_scope-other i id f (b ∷ bs) keeps apart =
    ground (arith, keeps b, find_scope-other i id f bs keeps apart)

pub find_scope-same :
    (id : ℕ) (f : BufferedScope → BufferedScope) (bs : List BufferedScope) (b : BufferedScope)
    → ((c : BufferedScope) → (f c).scope.id ≡ c.scope.id)
    → find_scope id bs ≡ some b
    → find_scope id (modify_first id f bs) ≡ some (f b)
unfolding modify_first
find_scope-same id f [] b keeps e = cc
find_scope-same id f (c ∷ bs) b keeps e =
    ground (arith, keeps c, e, find_scope-same id f bs b keeps)

-- An exit leaves the other scopes alone.
pub finalize-other :
    (i id millis at : ℕ) (bs : List BufferedScope)
    → i ≢ id
    → find_scope i (vector_finalize bs id millis at).0 ≡ find_scope i bs
unfolding vector_finalize exited
finalize-other i id millis at bs apart =
    let other = find_scope-other i id (exited millis at) bs (λ b. refl) apart in
    elim (Option-cases (find_scope id bs)) [
      | inl e ↦ rw (e, vector_finalize)
      | inr (b, e) ↦ elim (Bool-cases (is_closed b)) [
        | inl shut ↦ rw (e, vector_finalize, shut)
        | inr still ↦ rw (e, vector_finalize, still) other
      ]
    ]

-- An exit of an open scope closes it and gives its duration; one of a closed scope does nothing.
pub finalize-open :
    (id millis at : ℕ) (bs : List BufferedScope) (b : BufferedScope)
    → find_scope id bs ≡ some b
    → is_closed b ≡ false
    → vector_finalize bs id millis at ≡ (
      modify_first id (exited millis at) bs,
      some ((exited millis at b).scope, exit_duration b millis at),
    )
unfolding vector_finalize
finalize-open id millis at bs b e still = rw (e, vector_finalize, still)

pub finalize-closed :
    (id millis at : ℕ) (bs : List BufferedScope) (b : BufferedScope)
    → find_scope id bs ≡ some b
    → is_closed b ≡ true
    → vector_finalize bs id millis at ≡ (bs, none)
unfolding vector_finalize
finalize-closed id millis at bs b e shut = rw (e, vector_finalize, shut)
