-- ===== src/Writer/Background/Flushing.antt =====
-- What a flush of `AsyncWriter` (src/journal/writer.rs) answers.
use eventline.Prelude.{
  ℕ, ◌+◌, ◌%◌, ◌^◌, ◌≡◌, refl, sym, ap, ◌∙◌, Bool, true, false, none, some, List, [], ◌∷◌, ◌++◌,
  or_else, if_either, if_when, inl, inr,
}
use eventline.Writer.{IoResult, Writer}
use eventline.Writer.Multi.{first_error}
use eventline.Writer.Background.{
  WriteMode, best_effort, blocking, Msg, run_id, scope, entry, flush_all, Worker, AsyncWriter,
  take_message, handle, drain, send, is_full, flush,
}
use eventline.Writer.Background.Order.{
  Call, sets_run_id, writes_scope, writes_record, flushes, works, process, settled, HasWorker,
  if_sent, queued_in, queued, step, taken_in, run, all_taken_in, send-Takes, run-Takes,
  drain_from-process,
}
use eventline.Writer.Background.Ready.{
  direct, deliver, results, Ready, handle_lem, process-deliver, send-Ready, drain-Ready,
}
use eventline.Writer.Background.Delivery.{run-Ready}
use eventline.Writer.Background.Lossy.{step-Took}

-- No flush is among the messages, and among the calls.
abbrev pub AllWrites : List Msg → Type 0
AllWrites [] = Unit
AllWrites (flush_all ∷ msgs) = ⊥
AllWrites (run_id id ∷ msgs) = AllWrites msgs
AllWrites (scope s ∷ msgs) = AllWrites msgs
AllWrites (entry r s ∷ msgs) = AllWrites msgs

abbrev pub NoFlush : List Call → Type 0
NoFlush [] = Unit
NoFlush (flushes ∷ cs) = ⊥
NoFlush (sets_run_id id ∷ cs) = NoFlush cs
NoFlush (writes_scope s ∷ cs) = NoFlush cs
NoFlush (writes_record r s ∷ cs) = NoFlush cs
NoFlush (works ∷ cs) = NoFlush cs

or_else-none : (r : IoResult) → or_else r none ≡ r
or_else-none none = refl
or_else-none (some e) = refl

or_else_assoc : (p q r : IoResult) → or_else (or_else p q) r ≡ or_else p (or_else q r)
or_else_assoc none q r = refl
or_else_assoc (some e) q r = refl

AllWrites-append : (xs ys : List Msg) → AllWrites xs → AllWrites ys → AllWrites (xs ++ ys)
AllWrites-append [] ys p q = q
AllWrites-append (flush_all ∷ xs) ys p q = absurd p
AllWrites-append (run_id id ∷ xs) ys p q = AllWrites-append xs ys p q
AllWrites-append (scope s ∷ xs) ys p q = AllWrites-append xs ys p q
AllWrites-append (entry r s ∷ xs) ys p q = AllWrites-append xs ys p q

module _ {W : Type 0} (sink : Writer W) (panics : Msg → W → Bool)
    (calm : (msg : Msg) (w : W) → panics msg w ≡ false) where
  handle-pending :
      (msg : Msg) (w : Worker W)
      → AllWrites (msg ∷ [])
      → (handle sink panics msg w).0.pending_error
        ≡ or_else w.pending_error (direct sink msg w.inner).1
  unfolding handle take_message
  handle-pending (run_id id) w h =
      rw (calm (run_id id) w.inner) (sym (or_else-none w.pending_error))
  handle-pending (scope s) w h = rw (calm (scope s) w.inner) refl
  handle-pending (entry r s) w h = rw (calm (entry r s) w.inner) refl
  handle-pending flush_all w h = absurd h

  handle-flush :
      (w : Worker W)
      → ((handle sink panics flush_all w).0.reply ≡ or_else w.pending_error (sink.flush w.inner).1)
        × ((handle sink panics flush_all w).0.pending_error ≡ none)
  unfolding handle take_message
  handle-flush w = rw (calm flush_all w.inner) (refl, refl)

  AllWrites-head :
      (msg : Msg) (msgs : List Msg) → AllWrites (msg ∷ msgs) → AllWrites (msg ∷ []) × AllWrites msgs
  AllWrites-head (run_id id) msgs h = (tt, h)
  AllWrites-head (scope s) msgs h = (tt, h)
  AllWrites-head (entry r s) msgs h = (tt, h)
  AllWrites-head flush_all msgs h = absurd h

  process-pending :
      (msgs : List Msg) (w : Worker W)
      → AllWrites msgs
      → w.alive ≡ true
      → (process sink panics msgs w).pending_error
        ≡ or_else w.pending_error (first_error (results sink msgs w.inner))
  process-pending [] w h lives = sym (or_else-none w.pending_error)
  process-pending (msg ∷ msgs) w h lives =
      let (first, rest) = AllWrites-head msg msgs h in
      let (still, inner) = handle_lem sink panics calm msg w in
      let w' = (handle sink panics msg w).0 in
      if_when
        (λ (v : Worker W).
          v.pending_error
          ≡ or_else w.pending_error (first_error (results sink (msg ∷ msgs) w.inner)))
        w.alive _ lives
        (process-pending msgs w' rest (still ∙ lives)
          ∙ ap (λ p. or_else p (first_error (results sink msgs w'.inner)))
              (handle-pending msg w first)
          ∙ or_else_assoc w.pending_error (direct sink msg w.inner).1
              (first_error (results sink msgs w'.inner))
          ∙ ap
              (λ i.
                or_else w.pending_error
                  (or_else (direct sink msg w.inner).1 (first_error (results sink msgs i))))
              inner)

  module _ (mode : WriteMode) (wants : Bool) (dropped : ℕ) where
    flushed :
        (a : AsyncWriter W)
        → Ready mode wants dropped a
        → HasWorker sink panics a
        → let d = drain sink panics (send sink panics flush_all a).0 in
          let w = (handle sink panics flush_all (settled sink panics a)).0 in
          (d.worker ≡ w) × (settled sink panics d ≡ w)
    unfolding drain
    flushed a v there =
        let r = send sink panics flush_all a in
        let (same, there') = send-Takes sink panics flush_all a there in
        let sent = (send-Ready sink panics calm mode wants dropped flush_all a v).1 in
        let lives = (process-deliver sink panics calm a.queue a.worker v.lives).1 in
        let p =
          drain_from-process sink panics r.0.queue r.0.worker r.0.state there'
          ∙ same
          ∙ ap (λ b. process sink panics (if_sent sink panics flush_all b) (settled sink panics a))
              sent
          ∙ if_when (λ (w : Worker W). w ≡ (handle sink panics flush_all (settled sink panics a)).0)
              (settled sink panics a).alive _ lives refl in
        (p, p)

    flush-reply :
        (a : AsyncWriter W)
        → Ready mode wants dropped a
        → HasWorker sink panics a
        → ((flush sink panics a).1
            ≡ or_else
                (settled sink panics a).pending_error
                (sink.flush (settled sink panics a).inner).1)
          × ((settled sink panics (flush sink panics a).0).pending_error ≡ none)
    unfolding flush
    flush-reply a v there =
        let r = send sink panics flush_all a in
        let (v', sent) = send-Ready sink panics calm mode wants dropped flush_all a v in
        let P = λ (o : AsyncWriter W × IoResult).
          (o.1
            ≡ or_else (settled sink panics a).pending_error
                (sink.flush (settled sink panics a).inner).1)
          × ((settled sink panics o.0).pending_error ≡ none) in
        let (reply, cleared) = handle-flush (settled sink panics a) in
        let (same, later) = flushed a v there in
        if_when P a.has_sender _ v.sends (
          if_when P r.1 _ sent (
            if_when P (drain sink panics r.0).worker.alive _
              (drain-Ready sink panics calm mode wants dropped r.0 v').lives
              (
                ap (λ (w : Worker W). w.reply) same ∙ reply,
                ap (λ (w : Worker W). w.pending_error) later ∙ cleared,
              )))

  run-lives :
      (mode : WriteMode) (wants : Bool) (cs : List Call) (dropped : ℕ) (a : AsyncWriter W)
      → Ready mode wants dropped a
      → (later : ℕ) × Ready mode wants later (run sink panics cs a)
  unfolding run
  run-lives blocking wants cs dropped a v =
      (dropped, unfold run in (run-Ready sink panics calm wants dropped cs a v).1)
  run-lives best_effort wants [] dropped a v = (dropped, v)
  run-lives best_effort wants (c ∷ cs) dropped a v =
      elim (step-Took sink panics calm wants dropped c a v) [
        | inl (same, v') ↦ run-lives best_effort wants cs dropped (step sink panics c a) v'
        | inr (left_out, none_taken, v') ↦
            run-lives best_effort wants cs ((dropped + 1) % 2 ^ 64) (step sink panics c a) v'
      ]

  queued_in-AllWrites :
      (mode : WriteMode) (msg : Msg) (a : AsyncWriter W)
      → AllWrites (msg ∷ [])
      → AllWrites (queued_in sink panics mode msg a)
  unfolding queued_in
  queued_in-AllWrites blocking msg a h = if_either AllWrites (send sink panics msg a).1 h tt
  queued_in-AllWrites best_effort msg a h =
      if_either AllWrites a.worker.alive (if_either AllWrites (is_full a) tt h) tt

  queued-AllWrites :
      (msg : Msg) (a : AsyncWriter W) → AllWrites (msg ∷ []) → AllWrites (queued sink panics msg a)
  unfolding queued
  queued-AllWrites msg a h =
      if_either AllWrites a.has_sender (queued_in-AllWrites a.mode msg a h) tt

  taken_in-AllWrites :
      (c : Call) (a : AsyncWriter W) → NoFlush (c ∷ []) → AllWrites (taken_in sink panics c a)
  unfolding taken_in
  taken_in-AllWrites (sets_run_id id) a h =
      let sent = (send sink panics (run_id id) a).1 in
      if_either AllWrites a.has_sender {x = if_sent sink panics (run_id id) sent} {y = []}
        (if_either AllWrites sent {x = run_id id ∷ []} {y = []} tt tt) tt
  taken_in-AllWrites (writes_scope s) a h =
      if_either AllWrites a.scope_metadata {x = queued sink panics (scope s) a} {y = []}
        (queued-AllWrites (scope s) a tt) tt
  taken_in-AllWrites (writes_record r s) a h = queued-AllWrites (entry r s) a tt
  taken_in-AllWrites flushes a h = absurd h
  taken_in-AllWrites works a h = tt

  NoFlush-head : (c : Call) (cs : List Call) → NoFlush (c ∷ cs) → NoFlush (c ∷ []) × NoFlush cs
  NoFlush-head (sets_run_id id) cs h = (tt, h)
  NoFlush-head (writes_scope s) cs h = (tt, h)
  NoFlush-head (writes_record r s) cs h = (tt, h)
  NoFlush-head flushes cs h = absurd h
  NoFlush-head works cs h = (tt, h)

  all_taken_in-AllWrites :
      (cs : List Call) (a : AsyncWriter W) → NoFlush cs → AllWrites (all_taken_in sink panics cs a)
  unfolding all_taken_in
  all_taken_in-AllWrites [] a h = tt
  all_taken_in-AllWrites (c ∷ cs) a h =
      let (first, rest) = NoFlush-head c cs h in
      AllWrites-append (taken_in sink panics c a)
        (all_taken_in sink panics cs (step sink panics c a)) (taken_in-AllWrites c a first)
        (all_taken_in-AllWrites cs (step sink panics c a) rest)

  -- In either mode, with an open writer whose worker runs and does not panic: where no error waits, a
  -- flush after any calls but flushes, in any order with the rounds of the worker, answers with the first
  -- error of the writes that were taken in, or else with what the inner writer answers to the flush;
  -- and no error waits after it.
  pub flush-first_error :
      (mode : WriteMode) (wants : Bool) (dropped : ℕ) (a : AsyncWriter W) (cs : List Call)
      → Ready mode wants dropped a
      → HasWorker sink panics a
      → (settled sink panics a).pending_error ≡ none
      → NoFlush cs
      → let taken = all_taken_in sink panics cs a in
        let w = (settled sink panics a).inner in
        let r = flush sink panics (run sink panics cs a) in
        (r.1 ≡ or_else (first_error (results sink taken w)) (sink.flush (deliver sink taken w)).1)
        × ((settled sink panics r.0).pending_error ≡ none)
  flush-first_error mode wants dropped a cs v there no_error h =
      let taken = all_taken_in sink panics cs a in
      let (later, v') = run-lives mode wants cs dropped a v in
      let (same, there') = run-Takes sink panics cs a there in
      let (reply, cleared) = flush-reply mode wants later (run sink panics cs a) v' there' in
      let lives = (process-deliver sink panics calm a.queue a.worker v.lives).1 in
      let before = settled sink panics a in
      (
        reply
            ∙ ap (λ (w : Worker W). or_else w.pending_error (sink.flush w.inner).1) same
            ∙ ap (λ p. or_else p (sink.flush (process sink panics taken before).inner).1)
                (process-pending taken before (all_taken_in-AllWrites cs a h) lives
                  ∙ ap (λ p. or_else p (first_error (results sink taken before.inner))) no_error)
            ∙ ap (λ i. or_else (first_error (results sink taken before.inner)) (sink.flush i).1)
                (process-deliver sink panics calm taken before lives).0,
        cleared,
      )
