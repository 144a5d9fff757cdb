-- ===== src/Buffer/Records/Vector.antt =====
-- The record store refines a plain vector of records: the vector model that the repository's own
-- test compares it with (`indexed_storage_matches_a_vector_model_through_mixed_updates`).
use eventline.Prelude.{
  ℕ, ◌+◌, ◌-◌, ◌≤◌, ◌<◌, ◌≡◌, refl, ap, ◌∙◌, Option, List, [], ◌∷◌, ◌++◌, arith, ◌==◌, Run, ok,
  ◌>>=◌, Returns, usize_max, length, length-append, length-drop, get_elem?, find?, drop,
}
use eventline.Core.{Record}
use eventline.Buffer.Records.{
  Records, no_records, push, trim, get_record, get_record_by_id, records_len, records_snapshot,
  clear,
}
use eventline.Buffer.Records.Sound.{
  IsSound, push_lem, get_record_by_id_lem, clear-IsSound, no_records-IsSound,
}
use eventline.Buffer.Records.Trim.{trim_lem}

-- The calls of the record half of a `Buffer`, and what they answer.
pub data Op : Type 0 where
  pushes : Record → Op
  asks_id asks_index trims : ℕ → Op
  asks_len asks_all clears : Op

pub data Answer : Type 0 where
  nothing : Answer
  found : Option Record → Answer
  number : ℕ → Answer
  listed : List Record → Answer

-- A call on the store.
unfoldable pub step : Records → Op → Run (Records × Answer)
step s (pushes r) = do t ← push s r; ok (t, nothing)
step s (asks_id id) = do (t, r) ← get_record_by_id s id; ok (t, found r)
step s (asks_index i) = ok (s, found (get_record s i))
step s (trims max) = do t ← trim max s; ok (t, nothing)
step s asks_len = ok (s, number (records_len s))
step s asks_all = ok (s, listed (records_snapshot s))
step s clears = ok (clear s, nothing)

-- The same call on a vector.
unfoldable pub vector_step : List Record → Op → List Record × Answer
vector_step xs (pushes r) = (xs ++ r ∷ [], nothing)
vector_step xs (asks_id id) = (xs, found (find? (λ r. r.id == id) xs))
vector_step xs (asks_index i) = (xs, found (get_elem? xs i))
vector_step xs (trims max) = (drop (length xs - max) xs, nothing)
vector_step xs asks_len = (xs, number (length xs))
vector_step xs asks_all = (xs, listed xs)
vector_step xs clears = ([], nothing)

unfoldable pub run : Records → List Op → Run (Records × List Answer)
run s [] = ok (s, [])
run s (o ∷ ops) = do (t, a) ← step s o; (u, as') ← run t ops; ok (u, a ∷ as')

unfoldable pub vector_run : List Record → List Op → List Record × List Answer
vector_run xs [] = (xs, [])
vector_run xs (o ∷ ops) =
    let (ys, a) = vector_step xs o in let (zs, as') = vector_run ys ops in (zs, a ∷ as')

abbrev Agrees : List Record × Answer → Records × Answer → Type 0
Agrees (ys, b) (t, a) = IsSound t × (t.entries ≡ ys) × (a ≡ b)

step_lem :
    (s : Records) (o : Op)
    → IsSound s
    → length s.entries < usize_max
    → Returns (step s o) (Agrees (vector_step s.entries o))
unfolding step vector_step get_record records_len records_snapshot
step_lem s (pushes r) v room =
    let (t, done, (sound, same)) = push_lem s r v room in
    ((t, nothing), rw done, (sound, same, refl))
step_lem s (asks_id id) v room =
    let ((t, r), done, (sound, same, hit)) = get_record_by_id_lem s id v in
    ((t, found r), rw done, (sound, same, ap found hit))
step_lem s (asks_index i) v room = ((s, _), refl, (v, refl, refl))
step_lem s (trims max) v room =
    let (t, done, (sound, same)) = trim_lem max s v in ((t, nothing), rw done, (sound, same, refl))
step_lem s asks_len v room = ((s, _), refl, (v, refl, refl))
step_lem s asks_all v room = ((s, _), refl, (v, refl, refl))
step_lem s clears v room = ((clear s, nothing), refl, (clear-IsSound s, unfold clear in refl, refl))

length-vector_step : (xs : List Record) (o : Op) → length (vector_step xs o).0 ≤ length xs + 1
unfolding vector_step
length-vector_step xs (pushes r) = omega (arith, length-append xs (r ∷ []))
length-vector_step xs (trims max) = omega (arith, length-drop (length xs - max) xs)
length-vector_step xs clears = omega arith
length-vector_step xs _ = omega arith

run_lem :
    (s : Records) (ops : List Op)
    → IsSound s
    → length s.entries + length ops < usize_max
    → Returns (run s ops) λ (t, answers).
      IsSound t
      × (t.entries ≡ (vector_run s.entries ops).0)
      × (answers ≡ (vector_run s.entries ops).1)
unfolding run vector_run
run_lem s [] v room = ((s, []), refl, (v, refl, refl))
run_lem s (o ∷ ops) v room =
    let ((t, a), done, (sound, same, answer)) = step_lem s o v (omega arith) in
    let room' : length t.entries + length ops < usize_max =
      omega (arith, ap length same, length-vector_step s.entries o) in
    let ((u, as'), done', (sound', same', answers)) = run_lem t ops sound room' in
    (
      (u, a ∷ as'),
      rw (done, done'),
      (
        sound',
        same' ∙ ap (λ xs. (vector_run xs ops).0) same,
        λ i. answer i ∷ (answers ∙ ap (λ xs. (vector_run xs ops).1) same) i,
      ),
    )

-- From the empty store, any sequence of fewer than `usize::MAX` calls returns (no `unwrap` fails
-- and no `usize` overflows), gives the answers of the plain vector, and ends with its contents.
pub run-vector :
    (ops : List Op)
    → length ops < usize_max
    → Returns (run no_records ops) λ (t, answers). (t.entries, answers) ≡ vector_run [] ops
run-vector ops room =
    let (r, done, (_, same, answers)) = run_lem no_records ops no_records-IsSound (omega arith) in
    (r, done, λ i. (same i, answers i))
