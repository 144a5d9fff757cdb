-- ===== src/Writer/Background/Lossy.antt =====
-- In best-effort mode `AsyncWriter` (src/journal/writer.rs) loses entries only, and counts them.
use eventline.Prelude.{
  ℕ, suc, ◌+◌, ◌%◌, ◌^◌, ◌<◌, ◌≡◌, ◌⊎◌, refl, sym, ap, ◌∙◌, Bool, true, false, none, List, [], ◌∷◌,
  ◌++◌, if◌then◌else◌, arith, if_both, inl, inr, subst,
}
use eventline.Core.{Scope}
use eventline.Writer.{IoResult, Writer}
use eventline.Writer.Diagnostics.{drop_record}
use eventline.Writer.Background.{
  best_effort, Msg, run_id, scope, entry, flush_all, Worker, AsyncWriter, enqueue_in, enqueue,
  is_full, lost, write_scope, write_record, drop_writer, spawn_with_mode,
}
use eventline.Writer.Background.Order.{
  Call, sets_run_id, writes_scope, writes_record, flushes, works, queued_in, queued, step, taken_in,
  run, all_taken_in, run-Takes,
}
use eventline.Writer.Background.Ready.{
  deliver, offered_by, offered, Ready, process-deliver, work-Ready, flush-Ready, set_run_id-Ready,
  drop_writer-Ready,
}

-- The messages that a full queue may lose.
abbrev pub is_entry : Msg → Bool
is_entry (scope s) = true
is_entry (entry r s) = true
is_entry (run_id id) = false
is_entry flush_all = false

abbrev pub entries : List Msg → ℕ
entries [] = 0
entries (msg ∷ msgs) = if is_entry msg then suc (entries msgs) else entries msgs

-- The same messages in the same order, but for some entries that are left out.
pub data Thinned : List Msg → List Msg → Type 0 where
  nothing : Thinned [] []
  kept : (msg : Msg) {xs ys : List Msg} → Thinned xs ys → Thinned (msg ∷ xs) (msg ∷ ys)
  left_out :
      (msg : Msg) {xs ys : List Msg} → is_entry msg ≡ true → Thinned xs ys → Thinned xs (msg ∷ ys)

module _ {W : Type 0} (sink : Writer W) (panics : Msg → W → Bool)
    (calm : (msg : Msg) (w : W) → panics msg w ≡ false) (wants : Bool) where
  abbrev pub IsReady : ℕ → AsyncWriter W → Type 0
  IsReady dropped a = Ready best_effort wants dropped a

  -- Messages are taken in as they are offered, or one entry is counted as lost.
  abbrev pub Took : ℕ → List Msg → List Msg → AsyncWriter W → Type 0
  Took dropped taken offers a =
      ((taken ≡ offers) × IsReady dropped a)
      ⊎ (((msg : Msg) × (offers ≡ msg ∷ []) × (is_entry msg ≡ true))
          × (taken ≡ [])
          × IsReady ((dropped + 1) % 2 ^ 64) a)

  lost-Ready :
      (dropped : ℕ) (a : AsyncWriter W)
      → IsReady dropped a
      → IsReady ((dropped + 1) % 2 ^ 64) (lost a)
  unfolding drop_record
  lost-Ready dropped a v = record {
    lives = v.lives;
    sends = v.sends;
    same_mode = v.same_mode;
    same_wants = v.same_wants;
    same_dropped = ap (λ d. (d + 1) % 2 ^ 64) v.same_dropped;
  }

  behind-Ready :
      (dropped : ℕ) (msgs : List Msg) (a : AsyncWriter W)
      → IsReady dropped a
      → IsReady dropped (record a { queue = msgs })
  behind-Ready dropped msgs a v = record {
    lives = v.lives;
    sends = v.sends;
    same_mode = v.same_mode;
    same_wants = v.same_wants;
    same_dropped = v.same_dropped;
  }

  enqueue_in-Took :
      (dropped : ℕ) (msg : Msg) (a : AsyncWriter W)
      → is_entry msg ≡ true
      → IsReady dropped a
      → Took dropped
          (queued_in sink panics best_effort msg a)
          (msg ∷ [])
          (enqueue_in sink panics best_effort msg a).0
  unfolding enqueue_in queued_in
  enqueue_in-Took dropped msg a e v =
      if_both (λ msgs (o : AsyncWriter W × IoResult). Took dropped msgs (msg ∷ []) o.0)
        a.worker.alive
        (λ lives.
          if_both (λ msgs (o : AsyncWriter W × IoResult). Took dropped msgs (msg ∷ []) o.0)
            (is_full a) (λ full. inr ((msg, refl, e), refl, lost-Ready dropped a v))
            (λ free. inl (refl, behind-Ready dropped (a.queue ++ msg ∷ []) a v)))
        (λ gone. cc)

  enqueue-Took :
      (dropped : ℕ) (msg : Msg) (a : AsyncWriter W)
      → is_entry msg ≡ true
      → IsReady dropped a
      → Took dropped (queued sink panics msg a) (msg ∷ []) (enqueue sink panics msg a).0
  unfolding enqueue queued
  enqueue-Took dropped msg a e v =
      if_both (λ msgs (o : AsyncWriter W × IoResult). Took dropped msgs (msg ∷ []) o.0) a.has_sender
        (λ _.
          subst
            (λ mode.
              Took dropped (queued_in sink panics mode msg a) (msg ∷ [])
                (enqueue_in sink panics mode msg a).0)
            (sym v.same_mode) (enqueue_in-Took dropped msg a e v))
        (λ shut. cc)

  write_scope-Took :
      (dropped : ℕ) (b : Bool) (s : Scope) (a : AsyncWriter W)
      → IsReady dropped a
      → Took dropped
          (if b then queued sink panics (scope s) a else [])
          (if b then scope s ∷ [] else [])
          (if b then enqueue sink panics (scope s) a else (a, none)).0
  write_scope-Took dropped true s a v = enqueue-Took dropped (scope s) a refl v
  write_scope-Took dropped false s a v = inl (refl, v)

  pub step-Took :
      (dropped : ℕ) (c : Call) (a : AsyncWriter W)
      → IsReady dropped a
      → Took dropped (taken_in sink panics c a) (offered_by sink wants c) (step sink panics c a)
  unfolding step taken_in write_scope write_record
  step-Took dropped (sets_run_id id) a v =
      unfold taken_in in inl (set_run_id-Ready sink panics calm best_effort wants dropped id a v)
  step-Took dropped (writes_scope s) a v =
      subst
        (λ b.
          Took dropped (if b then queued sink panics (scope s) a else [])
            (offered_by sink wants (writes_scope s))
            (if b then enqueue sink panics (scope s) a else (a, none)).0)
        (sym v.same_wants) (write_scope-Took dropped wants s a v)
  step-Took dropped (writes_record r s) a v = enqueue-Took dropped (entry r s) a refl v
  step-Took dropped flushes a v = inl (flush-Ready sink panics calm best_effort wants dropped a v)
  step-Took dropped works a v =
      inl (refl, work-Ready sink panics calm best_effort wants dropped a v)

  entries-append : (xs ys : List Msg) → entries (xs ++ ys) ≡ entries xs + entries ys
  entries-append [] ys = omega arith
  entries-append (x ∷ xs) ys = ground (arith, entries-append xs ys)

  Thinned-append :
      (msgs : List Msg) {xs ys : List Msg} → Thinned xs ys → Thinned (msgs ++ xs) (msgs ++ ys)
  Thinned-append [] t = t
  Thinned-append (msg ∷ msgs) t = kept msg (Thinned-append msgs t)

  -- What is taken in is what was offered but for the entries that were counted.
  abbrev Counted : ℕ → List Msg → List Msg → AsyncWriter W → Type 0
  Counted dropped taken offers a =
      (later : ℕ) × IsReady later a
      × Thinned taken offers
      × (later + entries taken ≡ dropped + entries offers)

  run-Counted :
      (cs : List Call) (dropped : ℕ) (a : AsyncWriter W)
      → dropped + entries (offered sink wants cs) < 2 ^ 64
      → IsReady dropped a
      → Counted dropped
          (all_taken_in sink panics cs a)
          (offered sink wants cs)
          (run sink panics cs a)
  unfolding run all_taken_in
  run-Counted [] dropped a room v = (dropped, v, nothing, refl)
  run-Counted (c ∷ cs) dropped a room v =
      let more = offered sink wants cs in
      let rest = all_taken_in sink panics cs (step sink panics c a) in
      let counts = entries-append (offered_by sink wants c) more in
      elim (step-Took dropped c a v) [
        | inl (same, v') ↦
            let (later, v'', t, count) =
              run-Counted cs dropped (step sink panics c a) (omega arith) v' in
            (
              later,
              v'',
              subst (λ taken. Thinned (taken ++ rest) (offered_by sink wants c ++ more)) (sym same)
                  (Thinned-append (offered_by sink wants c) t),
              ap (λ taken. later + entries (taken ++ rest)) same
                  ∙ omega (arith, counts, entries-append (offered_by sink wants c) rest),
            )
        | inr ((msg, offers, e), none_taken, v') ↦
            let one : entries (offered_by sink wants c) ≡ 1 = ap entries offers ∙ rw e refl in
            let (later, v'', t, count) =
              run-Counted cs ((dropped + 1) % 2 ^ 64) (step sink panics c a) (omega arith) v' in
            (
              later,
              v'',
              subst (λ taken. Thinned (taken ++ rest) (offered_by sink wants c ++ more))
                  (sym none_taken)
                  (subst (λ offers. Thinned rest (offers ++ more)) (sym offers) (left_out msg e t)),
              ap (λ taken. later + entries (taken ++ rest)) none_taken ∙ omega arith,
            )
      ]

  -- In best-effort mode, with an inner writer that does not panic, and fewer than 2 ^ 64 entries: when
  -- the writer is dropped, the inner writer is as if it had been given itself, and then flushed once
  -- more, the messages of all calls in their order but for some entries, as many as are counted as
  -- lost. Run identifiers and flushes are never lost.
  pub drop_writer-Thinned :
      (inner : W) (queue_cap : ℕ) (cs : List Call)
      → sink.wants_scope_metadata inner ≡ wants
      → entries (offered sink wants cs) < 2 ^ 64
      → let start = spawn_with_mode sink panics none inner queue_cap best_effort in
        let dropped = drop_writer sink panics (run sink panics cs start) in
        let taken = all_taken_in sink panics cs start in
        (dropped.worker.inner ≡ (sink.flush (deliver sink taken inner)).0)
        × Thinned taken (offered sink wants cs)
        × (dropped.state.dropped + entries taken ≡ entries (offered sink wants cs))
  unfolding spawn_with_mode
  drop_writer-Thinned inner queue_cap cs same_wants few =
      let start = spawn_with_mode sink panics none inner queue_cap best_effort in
      let v : IsReady 0 start = record {
        lives = refl;
        sends = refl;
        same_mode = refl;
        same_wants = same_wants;
        same_dropped = refl;
      } in
      let (later, v', t, count) = run-Counted cs 0 start (omega arith) v in
      let (taken, there) = run-Takes sink panics cs start (inl refl) in
      let (given, lost) =
        drop_writer-Ready sink panics calm best_effort wants later (run sink panics cs start) v'
          there in
      (
        given
            ∙ ap (λ (w : Worker W). (sink.flush w.inner).0) taken
            ∙ ap (λ w. (sink.flush w).0)
                (process-deliver sink panics calm (all_taken_in sink panics cs start) start.worker
                  refl).0,
        t,
        ap (λ n. n + entries (all_taken_in sink panics cs start)) lost ∙ count ∙ omega arith,
      )
