-- ===== src/Writer/Background/Order.antt =====
-- Calls of `AsyncWriter` (src/journal/writer.rs) and steps of its worker, in any order.
use eventline.Prelude.{
  ◌≡◌, ◌⊎◌, refl, sym, ap, ◌∙◌, String, Bool, true, false, Option, List, [], ◌∷◌, ◌++◌,
  if◌then◌else◌, arith, Bool-cases, if_both, if_either, inl, inr,
}
use eventline.Core.{Record, Scope}
use eventline.Writer.{IoResult, Writer}
use eventline.Writer.Diagnostics.{WriterState}
use eventline.Writer.Background.{
  WriteMode, best_effort, blocking, Msg, run_id, scope, entry, flush_all, Worker, AsyncWriter, note,
  handle, work_from, work, drain_from, drain, send, enqueue_in, enqueue, is_full, unavailable,
  set_run_id, write_scope, write_record, flush,
}

-- What may happen next: a call of the client, or a round of the worker.
pub data Call : Type 0 where
  sets_run_id : String → Call
  writes_scope : Scope → Call
  writes_record : Record → Option Scope → Call
  flushes works : Call

module _ {W : Type 0} (sink : Writer W) (panics : Msg → W → Bool) where
  -- The worker on a sequence of messages; a worker that is gone takes none.
  abbrev pub process : List Msg → Worker W → Worker W
  process [] w = w
  process (msg ∷ msgs) w = if w.alive then process msgs (handle sink panics msg w).0 else w

  process-gone : (msgs : List Msg) (w : Worker W) → w.alive ≡ false → process msgs w ≡ w
  process-gone [] w gone = refl
  process-gone (msg ∷ msgs) w gone = ground arith

  pub process-append :
      (xs ys : List Msg) (w : Worker W) → process (xs ++ ys) w ≡ process ys (process xs w)
  process-append [] ys w = refl
  process-append (x ∷ xs) ys w = elim (Bool-cases w.alive) [
    | inl there ↦ ground (arith, process-append xs ys (handle sink panics x w).0)
    | inr gone ↦ ground (arith, process-gone ys w gone)
  ]

  -- The worker when all that is queued has been taken.
  abbrev pub settled : AsyncWriter W → Worker W
  settled a = process a.queue a.worker

  -- The queue is gone with the worker.
  abbrev pub HasWorker : AsyncWriter W → Type 0
  HasWorker a = (a.worker.alive ≡ true) ⊎ (a.queue ≡ [])

  pub drain_from-process :
      (queue : List Msg) (w : Worker W) (state : WriterState)
      → (w.alive ≡ true) ⊎ (queue ≡ [])
      → (drain_from sink panics queue w state).0 ≡ process queue w
  unfolding drain_from
  drain_from-process [] w state there = refl
  drain_from-process (msg ∷ queue) w state (inl there) =
      elim (Bool-cases (handle sink panics msg w).0.alive) [
        | inl lives ↦ ground (
          arith,
          drain_from-process queue (handle sink panics msg w).0
              (note (handle sink panics msg w).1 state) (inl lives),
        )
        | inr gone ↦ ground (arith, process-gone queue (handle sink panics msg w).0 gone)
      ]
  drain_from-process (msg ∷ queue) w state (inr never) = cc

  work_from-settled :
      (queue : List Msg) (a : AsyncWriter W)
      → a.queue ≡ queue
      → (a.worker.alive ≡ true) ⊎ (queue ≡ [])
      → (settled (work_from sink panics queue a) ≡ process queue a.worker)
        × HasWorker (work_from sink panics queue a)
  unfolding work_from
  work_from-settled [] a e there = (ap (λ queue. process queue a.worker) e, inr e)
  work_from-settled (msg ∷ queue) a e (inr never) = cc
  work_from-settled (msg ∷ queue) a e (inl there) =
      elim (Bool-cases (handle sink panics msg a.worker).0.alive) [
        | inl lives ↦ (ground arith, inl lives)
        | inr gone ↦ (
          ground (arith, process-gone queue (handle sink panics msg a.worker).0 gone),
          inr (rw gone refl),
        )
      ]

  work-settled :
      (a : AsyncWriter W)
      → HasWorker a
      → (settled (work sink panics a) ≡ settled a) × HasWorker (work sink panics a)
  unfolding work
  work-settled a there = work_from-settled a.queue a refl there

  -- A message behind the queue.
  abbrev queued_behind : Msg → AsyncWriter W → AsyncWriter W
  queued_behind msg a = record a { queue = a.queue ++ msg ∷ [] }

  -- What a step does: the messages that it takes in come behind those that were queued.
  abbrev pub Takes : List Msg → AsyncWriter W → AsyncWriter W → Type 0
  Takes msgs a a' = (settled a' ≡ process msgs (settled a)) × HasWorker a'

  queued_behind-Takes :
      (msg : Msg) (a : AsyncWriter W)
      → a.worker.alive ≡ true
      → Takes (msg ∷ []) a (queued_behind msg a)
  queued_behind-Takes msg a there = (process-append a.queue (msg ∷ []) a.worker, inl there)

  abbrev pub if_sent : Msg → Bool → List Msg
  if_sent msg sent = if sent then msg ∷ [] else []

  make_room :
      (a : AsyncWriter W) → HasWorker a → Takes [] a (if is_full a then work sink panics a else a)
  make_room a there = elim (Bool-cases (is_full a)) [
    | inl full ↦ rw full (work-settled a there)
    | inr free ↦ rw free (refl, there)
  ]

  pub send-Takes :
      (msg : Msg) (a : AsyncWriter W)
      → HasWorker a
      → Takes (if_sent msg (send sink panics msg a).1) a (send sink panics msg a).0
  unfolding send
  send-Takes msg a there =
      let a' = if is_full a then work sink panics a else a in
      let (same, there') = make_room a there in
      elim (Bool-cases a'.worker.alive) [
        | inl lives ↦
            let (later, there'') = queued_behind-Takes msg a' lives in
            rw lives (later ∙ ap (process (msg ∷ [])) same, there'')
        | inr gone ↦ rw gone (same, there')
      ]

  -- The message of an entry, where it is queued.
  unfoldable pub queued_in : WriteMode → Msg → AsyncWriter W → List Msg
  queued_in blocking msg a = if_sent msg (send sink panics msg a).1
  queued_in best_effort msg a = if a.worker.alive then (if is_full a then [] else msg ∷ []) else []

  unfoldable pub queued : Msg → AsyncWriter W → List Msg
  unfolding queued_in
  queued msg a = if a.has_sender then queued_in a.mode msg a else []

  abbrev TakesWith : AsyncWriter W → List Msg → AsyncWriter W × IoResult → Type 0
  TakesWith a msgs r = Takes msgs a r.0

  abbrev TakesAt : AsyncWriter W → List Msg → AsyncWriter W → Type 0
  TakesAt a msgs a' = Takes msgs a a'

  enqueue_in-Takes :
      (mode : WriteMode) (msg : Msg) (a : AsyncWriter W)
      → HasWorker a
      → Takes (queued_in mode msg a) a (enqueue_in sink panics mode msg a).0
  unfolding enqueue_in queued_in unavailable
  enqueue_in-Takes blocking msg a there =
      let r = send sink panics msg a in
      let taken = send-Takes msg a there in
      if_both (λ msgs (o : AsyncWriter W × IoResult). Takes msgs a r.0 → Takes msgs a o.0) r.1
        (λ sent t. t) (λ gone t. t) taken
  enqueue_in-Takes best_effort msg a there =
      if_both (TakesWith a) a.worker.alive
        (λ lives.
          if_both (TakesWith a) (is_full a) (λ full. (refl, there))
            (λ free. queued_behind-Takes msg a lives))
        (λ gone. (refl, there))

  enqueue-Takes :
      (msg : Msg) (a : AsyncWriter W)
      → HasWorker a
      → Takes (queued msg a) a (enqueue sink panics msg a).0
  unfolding enqueue queued unavailable
  enqueue-Takes msg a there =
      if_both (TakesWith a) a.has_sender (λ sends. enqueue_in-Takes a.mode msg a there)
        (λ shut. (refl, there))

  drain-Takes : (a : AsyncWriter W) → HasWorker a → Takes [] a (drain sink panics a)
  unfolding drain
  drain-Takes a there = (drain_from-process a.queue a.worker a.state there, inr refl)

  pub flush-Takes :
      (a : AsyncWriter W)
      → HasWorker a
      → Takes
          (if a.has_sender then if_sent flush_all (send sink panics flush_all a).1 else [])
          a
          (flush sink panics a).0
  unfolding flush unavailable
  flush-Takes a there =
      let r = send sink panics flush_all a in
      let taken = send-Takes flush_all a there in
      if_both (TakesWith a) a.has_sender
        (λ sends.
          if_both (λ msgs (o : AsyncWriter W × IoResult). Takes msgs a r.0 → Takes msgs a o.0) r.1
            (λ sent t.
              let d = drain-Takes r.0 t.1 in
              if_either (TakesWith a (flush_all ∷ [])) (drain sink panics r.0).worker.alive
                (d.0 ∙ t.0, d.1) (d.0 ∙ t.0, d.1))
            (λ gone t. t) taken)
        (λ shut. (refl, there))

  -- A step, and the messages that it takes in.
  unfoldable pub step : Call → AsyncWriter W → AsyncWriter W
  step (sets_run_id id) a = set_run_id sink panics id a
  step (writes_scope s) a = (write_scope sink panics s a).0
  step (writes_record r s) a = (write_record sink panics r s a).0
  step flushes a = (flush sink panics a).0
  step works a = work sink panics a

  unfoldable pub taken_in : Call → AsyncWriter W → List Msg
  unfolding send queued
  taken_in (sets_run_id id) a =
      if a.has_sender then if_sent (run_id id) (send sink panics (run_id id) a).1 else []
  taken_in (writes_scope s) a = if a.scope_metadata then queued (scope s) a else []
  taken_in (writes_record r s) a = queued (entry r s) a
  taken_in flushes a =
      if a.has_sender then if_sent flush_all (send sink panics flush_all a).1 else []
  taken_in works a = []

  set_run_id-Takes :
      (id : String) (a : AsyncWriter W)
      → HasWorker a
      → Takes (taken_in (sets_run_id id) a) a (set_run_id sink panics id a)
  unfolding set_run_id taken_in unavailable
  set_run_id-Takes id a there =
      let r = send sink panics (run_id id) a in
      if_both (TakesAt a) a.has_sender
        (λ sends.
          if_both (λ msgs a'. Takes msgs a r.0 → Takes msgs a a') r.1 (λ sent t. t) (λ gone t. t)
            (send-Takes (run_id id) a there))
        (λ shut. (refl, there))

  pub step-Takes : (c : Call) (a : AsyncWriter W) → HasWorker a → Takes (taken_in c a) a (step c a)
  unfolding step taken_in write_scope write_record
  step-Takes (sets_run_id id) a there = unfold taken_in in set_run_id-Takes id a there
  step-Takes (writes_scope s) a there =
      if_both (TakesWith a) a.scope_metadata (λ wants. enqueue-Takes (scope s) a there)
        (λ ignored. (refl, there))
  step-Takes (writes_record r s) a there = enqueue-Takes (entry r s) a there
  step-Takes flushes a there = flush-Takes a there
  step-Takes works a there = work-settled a there

  -- Calls and rounds, one after the other, and all that they take in.
  unfoldable pub run : List Call → AsyncWriter W → AsyncWriter W
  run [] a = a
  run (c ∷ cs) a = run cs (step c a)

  unfoldable pub all_taken_in : List Call → AsyncWriter W → List Msg
  unfolding taken_in step
  all_taken_in [] a = []
  all_taken_in (c ∷ cs) a = taken_in c a ++ all_taken_in cs (step c a)

  pub run-Takes :
      (cs : List Call) (a : AsyncWriter W) → HasWorker a → Takes (all_taken_in cs a) a (run cs a)
  unfolding run all_taken_in
  run-Takes [] a there = (refl, there)
  run-Takes (c ∷ cs) a there =
      let (first, there') = step-Takes c a there in
      let (rest, there'') = run-Takes cs (step c a) there' in
      (
        rest
            ∙ ap (process (all_taken_in cs (step c a))) first
            ∙ sym (process-append (taken_in c a) (all_taken_in cs (step c a)) (settled a)),
        there'',
      )
