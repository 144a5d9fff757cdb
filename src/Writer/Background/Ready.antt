-- ===== src/Writer/Background/Ready.antt =====
-- Calls of an `AsyncWriter` (src/journal/writer.rs) whose inner writer does not panic.
use eventline.Prelude.{
  ℕ, ◌≡◌, refl, ap, ◌∙◌, String, Bool, true, false, none, some, List, [], ◌∷◌, ◌++◌, if◌then◌else◌,
  arith, if_both, if_either, if_when,
}
use eventline.Writer.{IoResult, Writer}
use eventline.Writer.Diagnostics.{WriterState, record_error}
use eventline.Writer.Background.{
  WriteMode, Msg, run_id, scope, entry, flush_all, Worker, AsyncWriter, Noted, note, noted,
  take_message, handle, work_from, work, drain_from, drain, send, is_full, set_run_id, flush,
  drop_writer,
}
use eventline.Writer.Background.Order.{
  Call, sets_run_id, writes_scope, writes_record, flushes, works, process, settled, HasWorker,
  taken_in, drain_from-process,
}

module _ {W : Type 0} (sink : Writer W) where
  -- A message given to the inner writer itself.
  abbrev pub direct : Msg → W → W × IoResult
  direct (run_id id) w = (sink.set_run_id id w, none)
  direct (scope s) w = sink.write_scope s w
  direct (entry r s) w = sink.write_record r s w
  direct flush_all w = sink.flush w

  abbrev pub deliver : List Msg → W → W
  deliver [] w = w
  deliver (msg ∷ msgs) w = deliver msgs (direct msg w).0

  -- What the inner writer answers, when it is given the messages itself.
  abbrev pub results : List Msg → W → List IoResult
  results [] w = []
  results (msg ∷ msgs) w = (direct msg w).1 ∷ results msgs (direct msg w).0

  -- The messages of the client's calls; a writer that wants no scopes is sent none.
  abbrev pub offered_by : Bool → Call → List Msg
  offered_by wants (sets_run_id id) = run_id id ∷ []
  offered_by wants (writes_scope s) = if wants then scope s ∷ [] else []
  offered_by wants (writes_record r s) = entry r s ∷ []
  offered_by wants flushes = flush_all ∷ []
  offered_by wants works = []

  abbrev pub offered : Bool → List Call → List Msg
  offered wants [] = []
  offered wants (c ∷ cs) = offered_by wants c ++ offered wants cs

pub note-dropped : (n : Noted) (state : WriterState) → (note n state).dropped ≡ state.dropped
unfolding record_error
note-dropped none state = refl
note-dropped (some e) state = refl

-- Open, with a worker, in a mode, and with so many entries counted as lost.
pub record Ready {W : Type 0} (mode : WriteMode) (wants : Bool) (dropped : ℕ) (a : AsyncWriter W)
    : Type 0 where
  pub lives : a.worker.alive ≡ true
  pub sends : a.has_sender ≡ true
  pub same_mode : a.mode ≡ mode
  pub same_wants : a.scope_metadata ≡ wants
  pub same_dropped : a.state.dropped ≡ dropped

module _ {W : Type 0} (sink : Writer W) (panics : Msg → W → Bool)
    (calm : (msg : Msg) (w : W) → panics msg w ≡ false) where
  pub handle_lem :
      (msg : Msg) (w : Worker W)
      → ((handle sink panics msg w).0.alive ≡ w.alive)
        × ((handle sink panics msg w).0.inner ≡ (direct sink msg w.inner).0)
  unfolding handle take_message
  handle_lem (run_id id) w = rw (calm (run_id id) w.inner) (refl, refl)
  handle_lem (scope s) w = rw (calm (scope s) w.inner) (refl, refl)
  handle_lem (entry r s) w = rw (calm (entry r s) w.inner) (refl, refl)
  handle_lem flush_all w = rw (calm flush_all w.inner) (refl, refl)

  pub process-deliver :
      (msgs : List Msg) (w : Worker W)
      → w.alive ≡ true
      → ((process sink panics msgs w).inner ≡ deliver sink msgs w.inner)
        × ((process sink panics msgs w).alive ≡ true)
  process-deliver [] w h = (refl, h)
  process-deliver (msg ∷ msgs) w h =
      let (lives, inner) = handle_lem msg w in
      let (rest, lives') = process-deliver msgs (handle sink panics msg w).0 (lives ∙ h) in
      ground (arith)

  module _ (mode : WriteMode) (wants : Bool) (dropped : ℕ) where
    abbrev pub IsReady : AsyncWriter W → Type 0
    IsReady a = Ready mode wants dropped a

    work_from-Ready :
        (queue : List Msg) (a : AsyncWriter W) → IsReady a → IsReady (work_from sink panics queue a)
    unfolding work_from
    work_from-Ready [] a v = v
    work_from-Ready (msg ∷ queue) a v = record {
      lives = (handle_lem msg a.worker).0 ∙ v.lives;
      sends = v.sends;
      same_mode = v.same_mode;
      same_wants = v.same_wants;
      same_dropped = note-dropped (handle sink panics msg a.worker).1 a.state ∙ v.same_dropped;
    }

    -- Ready, with these messages taken in.
    abbrev pub Took : List Msg → List Msg → AsyncWriter W → Type 0
    Took msgs expected a = (msgs ≡ expected) × IsReady a

    pub work-Ready : (a : AsyncWriter W) → IsReady a → IsReady (work sink panics a)
    unfolding work
    work-Ready a v = work_from-Ready a.queue a v

    behind-Ready :
        (msgs : List Msg) (a : AsyncWriter W) → IsReady a → IsReady (record a { queue = msgs })
    behind-Ready msgs a v = record {
      lives = v.lives;
      sends = v.sends;
      same_mode = v.same_mode;
      same_wants = v.same_wants;
      same_dropped = v.same_dropped;
    }

    pub send-Ready :
        (msg : Msg) (a : AsyncWriter W)
        → IsReady a
        → IsReady (send sink panics msg a).0 × ((send sink panics msg a).1 ≡ true)
    unfolding send
    send-Ready msg a v =
        let a' = if is_full a then work sink panics a else a in
        let v' : IsReady a' = if_either IsReady (is_full a) (work-Ready a v) v in
        rw v'.lives (
          record {
            lives = v'.lives;
            sends = v'.sends;
            same_mode = v'.same_mode;
            same_wants = v'.same_wants;
            same_dropped = v'.same_dropped;
          },
          refl,
        )

    pub drain_from-Ready :
        (queue : List Msg) (w : Worker W) (state : WriterState)
        → w.alive ≡ true
        → ((drain_from sink panics queue w state).0.alive ≡ true)
          × ((drain_from sink panics queue w state).1.dropped ≡ state.dropped)
    unfolding drain_from
    drain_from-Ready [] w state h = (h, refl)
    drain_from-Ready (msg ∷ queue) w state h =
        let (w', n) = handle sink panics msg w in
        let lives = (handle_lem msg w).0 ∙ h in
        let (lives', same) = drain_from-Ready queue w' (note n state) lives in
        if_when (λ (r : Worker W × WriterState). (r.0.alive ≡ true) × (r.1.dropped ≡ state.dropped))
          w'.alive _ lives (lives', same ∙ note-dropped n state)

    pub drain-Ready : (a : AsyncWriter W) → IsReady a → IsReady (drain sink panics a)
    unfolding drain
    drain-Ready a v =
        let (lives, same) = drain_from-Ready a.queue a.worker a.state v.lives in
        record {
          lives = lives;
          sends = v.sends;
          same_mode = v.same_mode;
          same_wants = v.same_wants;
          same_dropped = same ∙ v.same_dropped;
        }

    pub flush-Ready :
        (a : AsyncWriter W)
        → IsReady a
        → Took (taken_in sink panics flushes a) (flush_all ∷ []) (flush sink panics a).0
    unfolding flush taken_in
    flush-Ready a v =
        let r = send sink panics flush_all a in
        let (v', sent) = send-Ready flush_all a v in
        if_both (λ msgs (o : AsyncWriter W × IoResult). Took msgs (flush_all ∷ []) o.0) a.has_sender
          (λ _.
            if_both (λ msgs (o : AsyncWriter W × IoResult). Took msgs (flush_all ∷ []) o.0) r.1
              (λ _.
                let d = drain-Ready r.0 v' in
                if_when
                  (λ (o : AsyncWriter W × IoResult). Took (flush_all ∷ []) (flush_all ∷ []) o.0)
                  (drain sink panics r.0).worker.alive _ d.lives (refl, d))
              (λ unsent. cc))
          (λ shut. cc)

    pub set_run_id-Ready :
        (id : String) (a : AsyncWriter W)
        → IsReady a
        → Took
            (taken_in sink panics (sets_run_id id) a)
            (run_id id ∷ [])
            (set_run_id sink panics id a)
    unfolding set_run_id taken_in
    set_run_id-Ready id a v =
        let r = send sink panics (run_id id) a in
        let (v', sent) = send-Ready (run_id id) a v in
        if_both (λ msgs o. Took msgs (run_id id ∷ []) o) a.has_sender
          (λ _.
            if_both (λ msgs o. Took msgs (run_id id ∷ []) o) r.1 (λ _. (refl, v')) (λ unsent. cc))
          (λ shut. cc)

    pub drop_writer-Ready :
        (a : AsyncWriter W)
        → IsReady a
        → HasWorker sink panics a
        → ((drop_writer sink panics a).worker.inner ≡ (sink.flush (settled sink panics a).inner).0)
          × ((drop_writer sink panics a).state.dropped ≡ dropped)
    unfolding drop_writer
    drop_writer-Ready a v there =
        let (lives, same) = drain_from-Ready a.queue a.worker a.state v.lives in
        let taken = drain_from-process sink panics a.queue a.worker a.state there in
        if_when
          (λ (d : AsyncWriter W).
            (d.worker.inner ≡ (sink.flush (settled sink panics a).inner).0)
            × (d.state.dropped ≡ dropped))
          (drain_from sink panics a.queue a.worker a.state).0.alive _ lives
          (
            ap (λ (w : Worker W). (sink.flush w.inner).0) taken,
            note-dropped
                  (noted "flushing writer at shutdown"
                    (sink.flush (drain_from sink panics a.queue a.worker a.state).0.inner).1)
                  (drain_from sink panics a.queue a.worker a.state).1
                ∙ same
                ∙ v.same_dropped,
          )
