-- ===== src/Writer/Background/Delivery.antt =====
-- In blocking mode, and with an inner writer that does not panic, `AsyncWriter` (src/journal/writer.rs)
-- loses nothing.
use eventline.Prelude.{
  ℕ, ◌≡◌, refl, sym, ap, ◌∙◌, Bool, true, false, none, List, [], ◌∷◌, if◌then◌else◌, if_both, inl,
  subst,
}
use eventline.Core.{Scope}
use eventline.Writer.{IoResult, Writer}
use eventline.Writer.Background.{
  blocking, Msg, scope, entry, Worker, AsyncWriter, send, enqueue_in, enqueue, write_scope,
  write_record, drop_writer, spawn_with_mode,
}
use eventline.Writer.Background.Order.{
  Call, sets_run_id, writes_scope, writes_record, flushes, works, process, queued_in, queued, step,
  taken_in, run, all_taken_in, run-Takes,
}
use eventline.Writer.Background.Ready.{
  deliver, offered_by, offered, Ready, process-deliver, work-Ready, send-Ready, flush-Ready,
  set_run_id-Ready, drop_writer-Ready,
}

module _ {W : Type 0} (sink : Writer W) (panics : Msg → W → Bool)
    (calm : (msg : Msg) (w : W) → panics msg w ≡ false) where
  module _ (wants : Bool) (dropped : ℕ) where
    abbrev pub IsReady : AsyncWriter W → Type 0
    IsReady a = Ready blocking wants dropped a

    abbrev pub Took : List Msg → List Msg → AsyncWriter W → Type 0
    Took msgs expected a = (msgs ≡ expected) × IsReady a

    enqueue_in-Ready :
        (msg : Msg) (a : AsyncWriter W)
        → IsReady a
        → Took
            (queued_in sink panics blocking msg a)
            (msg ∷ [])
            (enqueue_in sink panics blocking msg a).0
    unfolding enqueue_in queued_in
    enqueue_in-Ready msg a v =
        let r = send sink panics msg a in
        let (v', sent) = send-Ready sink panics calm blocking wants dropped msg a v in
        if_both (λ msgs (o : AsyncWriter W × IoResult). Took msgs (msg ∷ []) o.0) r.1
          (λ _. (refl, v')) (λ unsent. cc)

    enqueue-Ready :
        (msg : Msg) (a : AsyncWriter W)
        → IsReady a
        → Took (queued sink panics msg a) (msg ∷ []) (enqueue sink panics msg a).0
    unfolding enqueue queued
    enqueue-Ready msg a v =
        if_both (λ msgs (o : AsyncWriter W × IoResult). Took msgs (msg ∷ []) o.0) a.has_sender
          (λ _.
            subst
              (λ mode.
                Took (queued_in sink panics mode msg a) (msg ∷ [])
                  (enqueue_in sink panics mode msg a).0)
              (sym v.same_mode) (enqueue_in-Ready msg a v))
          (λ shut. cc)

    write_scope-Ready :
        (b : Bool) (s : Scope) (a : AsyncWriter W)
        → IsReady a
        → Took
            (if b then queued sink panics (scope s) a else [])
            (if b then scope s ∷ [] else [])
            (if b then enqueue sink panics (scope s) a else (a, none)).0
    write_scope-Ready true s a v = enqueue-Ready (scope s) a v
    write_scope-Ready false s a v = (refl, v)

    step-Ready :
        (c : Call) (a : AsyncWriter W)
        → IsReady a
        → Took (taken_in sink panics c a) (offered_by sink wants c) (step sink panics c a)
    unfolding step taken_in write_scope write_record
    step-Ready (sets_run_id id) a v =
        unfold taken_in in set_run_id-Ready sink panics calm blocking wants dropped id a v
    step-Ready (writes_scope s) a v =
        subst
          (λ b.
            Took (if b then queued sink panics (scope s) a else [])
              (offered_by sink wants (writes_scope s))
              (if b then enqueue sink panics (scope s) a else (a, none)).0)
          (sym v.same_wants) (write_scope-Ready wants s a v)
    step-Ready (writes_record r s) a v = enqueue-Ready (entry r s) a v
    step-Ready flushes a v = flush-Ready sink panics calm blocking wants dropped a v
    step-Ready works a v = (refl, work-Ready sink panics calm blocking wants dropped a v)

    pub run-Ready :
        (cs : List Call) (a : AsyncWriter W)
        → IsReady a
        → Took (all_taken_in sink panics cs a) (offered sink wants cs) (run sink panics cs a)
    unfolding run all_taken_in
    run-Ready [] a v = (refl, v)
    run-Ready (c ∷ cs) a v =
        let (first, v') = step-Ready c a v in
        let (rest, v'') = run-Ready cs (step sink panics c a) v' in (cc, v'')

  -- In blocking mode, with an inner writer that does not panic, and whatever the capacity and the order
  -- of calls and rounds of the worker: when the writer is dropped, the inner writer is as if it had been
  -- given the run identifiers, entries and flushes of all calls itself, in their order, and then flushed
  -- once more, and no entry is counted as lost.
  pub drop_writer-deliver :
      (inner : W) (queue_cap : ℕ) (cs : List Call)
      → let a = run sink panics cs (spawn_with_mode sink panics none inner queue_cap blocking) in
        ((drop_writer sink panics a).worker.inner
          ≡ (sink.flush (deliver sink (offered sink (sink.wants_scope_metadata inner) cs) inner)).0)
        × ((drop_writer sink panics a).state.dropped ≡ 0)
  unfolding spawn_with_mode
  drop_writer-deliver inner queue_cap cs =
      let start = spawn_with_mode sink panics none inner queue_cap blocking in
      let wants = sink.wants_scope_metadata inner in
      let v : Ready blocking wants 0 start = record {
        lives = refl;
        sends = refl;
        same_mode = refl;
        same_wants = refl;
        same_dropped = refl;
      } in
      let (msgs, v') = run-Ready wants 0 cs start v in
      let (taken, there) = run-Takes sink panics cs start (inl refl) in
      let (given, none_lost) =
        drop_writer-Ready sink panics calm blocking wants 0 (run sink panics cs start) v' there in
      (
        given
            ∙ ap (λ (w : Worker W). (sink.flush w.inner).0) taken
            ∙ ap (λ w. (sink.flush w).0)
                (ap (λ msgs. (process sink panics msgs start.worker).inner) msgs
                  ∙ (process-deliver sink panics calm (offered sink wants cs) start.worker refl).0),
        none_lost,
      )
