-- ===== src/Buffer/Scopes/Vector.antt =====
-- The scope store refines a plain vector of scopes: the vector model that the repository's own test
-- compares it with (`indexed_storage_matches_a_vector_model_through_mixed_updates`).
use eventline.Prelude.{
  ℕ, zero, suc, ◌+◌, ◌-◌, ◌≤◌, ◌<◌, max, ◌≡◌, refl, ap, ◌∙◌, Bool, Option, none, some, List, [],
  ◌∷◌, ◌++◌, inl, inr, map, arith, ◌==◌, Run, ok, ◌>>=◌, Returns, usize_max, length, get_elem?,
  Bool-cases, ==_iff,
}
use eventline.Core.{Scope, ExitMessages}
use eventline.Buffer.Scopes.{BufferedScope, Scopes, no_scopes, live, slot_at, push, trim}
use eventline.Buffer.Scopes.Slots.{evict, closed_count, length-live-le}
use eventline.Buffer.Scopes.Sound.{IsSound, push_lem, get_lem, no_scopes-IsSound}
use eventline.Buffer.Scopes.Trim.{trim-evict}
use eventline.Buffer.Scopes.Exit.{
  set_scope_exit_messages, finalize_scope_exit_at, elapsed, get_scope_elapsed, get_scope_by_id,
  get_scope, scopes_len, scopes_snapshot, clear,
}
use eventline.Buffer.Scopes.Update.{find_scope}
use eventline.Buffer.Scopes.Closing.{
  vector_messages, vector_finalize, set_scope_exit_messages_lem, finalize_scope_exit_at_lem,
}

-- The calls of the scope half of a `Buffer`, and what they answer.
pub data Op : Type 0 where
  pushes : BufferedScope → Op
  sets : ℕ → ExitMessages → Op
  exits : ℕ → ℕ → ℕ → Op
  asks_elapsed : ℕ → ℕ → ℕ → Op
  asks_id asks_index trims : ℕ → Op
  asks_len asks_all clears : Op

pub data Answer : Type 0 where
  nothing : Answer
  truth : Bool → Answer
  finished : Option (Scope × ℕ) → Answer
  found : Option Scope → Answer
  lasting : Option ℕ → Answer
  number : ℕ → Answer
  listed : List Scope → Answer

-- A call on the store.
unfoldable pub step : Scopes → Op → Run (Scopes × Answer)
step s (pushes b) = do t ← push s b; ok (t, nothing)
step s (sets id msgs) = do (t, r) ← set_scope_exit_messages s id msgs; ok (t, truth r)
step s (exits id millis at) = do (t, r) ← finalize_scope_exit_at s id millis at; ok (t, finished r)
step s (asks_elapsed id now wall) = do r ← get_scope_elapsed s id now wall; ok (s, lasting r)
step s (asks_id id) = do r ← get_scope_by_id s id; ok (s, found r)
step s (asks_index i) = ok (s, found (get_scope s i))
step s (trims max) = do t ← trim max s; ok (t, nothing)
step s asks_len = ok (s, number (scopes_len s))
step s asks_all = ok (s, listed (scopes_snapshot s))
step s clears = ok (clear s, nothing)

abbrev pub scope_of : Option BufferedScope → Option Scope
scope_of none = none
scope_of (some b) = some b.scope

-- The same call on a vector.
unfoldable pub vector_step : List BufferedScope → Op → List BufferedScope × Answer
vector_step bs (pushes b) = (bs ++ b ∷ [], nothing)
vector_step bs (sets id msgs) = let (cs, r) = vector_messages bs id msgs in (cs, truth r)
vector_step bs (exits id millis at) =
    let (cs, r) = vector_finalize bs id millis at in (cs, finished r)
vector_step bs (asks_elapsed id now wall) =
    (bs, lasting (elim (find_scope id bs) [ none ↦ none | some b ↦ some (elapsed b now wall) ]))
vector_step bs (asks_id id) = (bs, found (scope_of (find_scope id bs)))
vector_step bs (asks_index i) = (bs, found (scope_of (get_elem? bs i)))
vector_step bs (trims max) = (evict (closed_count bs - max) bs, nothing)
vector_step bs asks_len = (bs, number (length bs))
vector_step bs asks_all = (bs, listed (map (λ b. b.scope) bs))
vector_step bs clears = ([], nothing)

unfoldable pub run : Scopes → List Op → Run (Scopes × List Answer)
run s [] = ok (s, [])
run s (o ∷ ops) = do (t, a) ← step s o; (u, answers) ← run t ops; ok (u, a ∷ answers)

unfoldable pub vector_run : List BufferedScope → List Op → List BufferedScope × List Answer
vector_run bs [] = (bs, [])
vector_run bs (o ∷ ops) =
    let (cs, a) = vector_step bs o in let (ds, answers) = vector_run cs ops in (ds, a ∷ answers)

-- With every slot taken, a slot is found by its place among the scopes.
all_taken :
    (slots : List (Option BufferedScope)) (i : ℕ)
    → length (live slots) ≡ length slots
    → slot_at slots i ≡ get_elem? (live slots) i
unfolding live
all_taken [] i e = refl
all_taken (none ∷ slots) i e = absurd (omega (arith, length-live-le slots))
all_taken (some b ∷ slots) zero e = refl
all_taken (some b ∷ slots) (suc i) e = all_taken slots i (omega arith)

get_scope_lem :
    (s : Scopes) (i : ℕ) → IsSound s → get_scope s i ≡ scope_of (get_elem? (live s.entries) i)
unfolding get_scope
get_scope_lem s i v = elim (Bool-cases (s.len == length s.entries)) [
  | inl full ↦
      rw
        (
          full,
          get_scope,
          all_taken s.entries i
              (omega (arith, v.counted, (==_iff s.len (length s.entries)).0 full)),
        )
        (ground arith)
  | inr gaps ↦ rw (gaps, get_scope) (ground arith)
]

-- A step agrees with the vector: the invariant, the scopes, the answer, and the room it takes.
abbrev Agrees : Scopes → List BufferedScope × Answer → Scopes × Answer → Type 0
Agrees s (cs, b) (t, a) =
    IsSound t × (length t.entries ≤ length s.entries + 1) × (live t.entries ≡ cs) × (a ≡ b)

step_lem :
    (s : Scopes) (o : Op)
    → IsSound s
    → length s.entries < usize_max
    → Returns (step s o) (Agrees s (vector_step (live s.entries) o))
unfolding step vector_step scopes_len scopes_snapshot get_scope_by_id get_scope_elapsed
step_lem s (pushes b) v room =
    let (t, done, (sound, same, short)) = push_lem s b v room in
    ((t, nothing), rw done, (sound, short, same, refl))
step_lem s (sets id msgs) v room =
    let ((t, r), done, (sound, size, same)) = set_scope_exit_messages_lem s id msgs v in
    ((t, truth r), rw done, (sound, omega arith, ap (λ p. p.0) same, ap (λ p. truth p.1) same))
step_lem s (exits id millis at) v room =
    let ((t, r), done, (sound, size, same)) = finalize_scope_exit_at_lem s id millis at v in
    (
      (t, finished r),
      rw done,
      (sound, omega arith, ap (λ p. p.0) same, ap (λ p. finished p.1) same),
    )
step_lem s (asks_elapsed id now wall) v room = (
  (s, (vector_step (live s.entries) (asks_elapsed id now wall)).1),
  rw (get_lem s id v),
  (v, omega arith, refl, refl),
)
step_lem s (asks_id id) v room = (
  (s, (vector_step (live s.entries) (asks_id id)).1),
  rw (get_lem s id v) (ground arith),
  (v, omega arith, refl, refl),
)
step_lem s (asks_index i) v room =
    ((s, found (get_scope s i)), refl, (v, omega arith, refl, ap found (get_scope_lem s i v)))
step_lem s (trims max) v room =
    let (t, done, (sound, few, same, short)) = trim-evict max s v in
    ((t, nothing), rw done, (sound, omega arith, same, refl))
step_lem s asks_len v room = ((s, number s.len), refl, (v, omega arith, refl, ap number v.counted))
step_lem s asks_all v room =
    ((s, listed (map (λ b. b.scope) (live s.entries))), refl, (v, omega arith, refl, refl))
step_lem s clears v room = (
  (clear s, nothing),
  refl,
  (unfold clear in no_scopes-IsSound, unfold clear in omega arith, unfold clear live in refl, refl),
)

run_lem :
    (s : Scopes) (ops : List Op)
    → IsSound s
    → length s.entries + length ops < usize_max
    → Returns (run s ops) λ (t, answers).
      IsSound t
      × (live t.entries ≡ (vector_run (live s.entries) ops).0)
      × (answers ≡ (vector_run (live s.entries) ops).1)
unfolding run vector_run
run_lem s [] v room = ((s, []), refl, (v, refl, refl))
run_lem s (o ∷ ops) v room =
    let ((t, a), done, (sound, short, same, answer)) = step_lem s o v (omega arith) in
    let ((u, answers), done', (sound', same', answers')) = run_lem t ops sound (omega arith) in
    (
      (u, a ∷ answers),
      rw (done, done'),
      (
        sound',
        same' ∙ ap (λ bs. (vector_run bs ops).0) same,
        λ i. answer i ∷ (answers' ∙ ap (λ bs. (vector_run bs ops).1) same) i,
      ),
    )

-- From the empty store, any sequence of fewer than `usize::MAX` calls returns (no `unwrap` fails
-- and no `usize` overflows), gives the answers of the plain vector, and ends with its scopes.
pub run-vector_scopes :
    (ops : List Op)
    → length ops < usize_max
    → Returns (run no_scopes ops) λ (t, answers). (live t.entries, answers) ≡ vector_run [] ops
unfolding live
run-vector_scopes ops room =
    let (r, done, (_, same, answers)) = run_lem no_scopes ops no_scopes-IsSound (omega arith) in
    (r, done, λ i. (same i, answers i))

pub run-IsSound :
    (ops : List Op) → length ops < usize_max → Returns (run no_scopes ops) λ (t, answers). IsSound t
run-IsSound ops room =
    let (r, done, w) = run_lem no_scopes ops no_scopes-IsSound (omega arith) in (r, done, w.0)
