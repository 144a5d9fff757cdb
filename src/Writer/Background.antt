-- ===== src/Writer/Background.antt =====
-- `AsyncWriter` of src/journal/writer.rs: a bounded queue and a worker thread that owns the inner writer.
-- A call of the client and a step of the worker follow one another; a client that waits for room lets
-- the worker take the message in front, and one that waits for the answer to a flush lets it take all.
-- Whether the inner writer panics on a message is a parameter.
pub mod Order
pub mod Ready
pub mod Delivery
pub mod Lossy
pub mod Flushing
use eventline.Prelude.{
  ℕ, suc, ◌+◌, ◌≡◌, refl, max, String, Bool, true, false, Option, none, some, List, [], ◌∷◌, ◌++◌,
  ltb, or_else, if◌then◌else◌, length, ◌⊎◌, inl, inr,
}
use eventline.Core.{Record, Scope}
use eventline.Writer.{ErrorKind, IoError, IoResult, Writer}
use eventline.Writer.Diagnostics.{WriterState, no_diagnostics, record_error, drop_record}

pub data WriteMode : Type 0 where
  best_effort blocking : WriteMode

-- `Msg`; the sender of the answer to a flush is left out, since one client waits for it.
pub data Msg : Type 0 where
  run_id : String → Msg
  scope : Scope → Msg
  entry : Record → Option Scope → Msg
  flush_all : Msg

-- The worker's locals: the inner writer, `pending_error`, the last answer to a flush, and whether the
-- thread still receives.
pub record Worker (W : Type 0) : Type 0 where
  pub inner : W
  pub pending_error : IoResult
  pub reply : IoResult
  pub alive : Bool

pub record AsyncWriter (W : Type 0) : Type 0 where
  pub worker : Worker W
  pub queue : List Msg
  pub queue_cap : ℕ
  pub mode : WriteMode
  pub scope_metadata : Bool
  pub has_sender : Bool
  pub state : WriterState

abbrev pub error_of : ErrorKind → String → IoError
error_of kind message = record { kind = kind; message = message }

-- What is noted of a failed operation.
abbrev pub Noted : Type 0
Noted = Option (String × IoError)

abbrev pub noted : String → IoResult → Noted
noted operation none = none
noted operation (some e) = some (operation, e)

abbrev pub note : Noted → WriterState → WriterState
note none state = state
note (some (operation, e)) state = record_error operation e state

module _ {W : Type 0} where
  -- `AsyncWriter::unavailable`.
  unfoldable pub unavailable : String → AsyncWriter W → AsyncWriter W × IoResult
  unavailable message a =
      let e = error_of ErrorKind.broken_pipe message in
      (record a { state = record_error "background writer queue" e a.state }, some e)

  abbrev pub is_full : AsyncWriter W → Bool
  is_full a = if ltb (length a.queue) (max a.queue_cap 1) then false else true

  abbrev pub lost : AsyncWriter W → AsyncWriter W
  lost a = record a { state = drop_record a.state }

module _ {W : Type 0} (sink : Writer W) (panics : Msg → W → Bool) where
  -- A write of the worker: the first error waits for the next flush.
  abbrev wrote : Worker W → String → W × IoResult → Worker W × Noted
  wrote w operation (inner, r) =
      (record w { inner = inner; pending_error = or_else w.pending_error r }, noted operation r)

  -- A message that the inner writer takes without a panic.
  unfoldable pub take_message : Msg → Worker W → Worker W × Noted
  take_message (run_id id) w = (record w { inner = sink.set_run_id id w.inner }, none)
  take_message (scope s) w = wrote w "writing scope metadata" (sink.write_scope s w.inner)
  take_message (entry r s) w = wrote w "writing record" (sink.write_record r s w.inner)
  take_message flush_all w =
      let (inner, r) = sink.flush w.inner in
      (
        record w { inner = inner; pending_error = none; reply = or_else w.pending_error r },
        noted "flushing writer" r,
      )

  -- The body of the worker's loop. A panic ends the thread.
  unfoldable pub handle : Msg → Worker W → Worker W × Noted
  unfolding take_message
  handle msg w =
      if panics msg w.inner
      then (
        record w { alive = false },
        some ("background writer", error_of ErrorKind.other "worker panicked"),
      )
      else take_message msg w

  work_from : List Msg → AsyncWriter W → AsyncWriter W
  unfolding handle
  work_from [] a = a
  work_from (msg ∷ queue) a =
      let (w, n) = handle msg a.worker in
      record a { worker = w; queue = if w.alive then queue else []; state = note n a.state }

  -- One round of the worker's loop. The queue is gone with the worker.
  unfoldable pub work : AsyncWriter W → AsyncWriter W
  unfolding work_from
  work a = work_from a.queue a

  -- The worker takes what is queued, in order, until a panic.
  unfoldable pub drain_from : List Msg → Worker W → WriterState → Worker W × WriterState
  unfolding handle
  drain_from [] w state = (w, state)
  drain_from (msg ∷ queue) w state =
      let (w', n) = handle msg w in
      let rest = drain_from queue w' (note n state) in if w'.alive then rest else (w', note n state)

  unfoldable pub drain : AsyncWriter W → AsyncWriter W
  unfolding drain_from
  drain a =
      let (w, state) = drain_from a.queue a.worker a.state in
      record a { worker = w; queue = []; state = state }

  -- `tx.send(msg)`: nothing where the worker is gone.
  unfoldable pub send : Msg → AsyncWriter W → AsyncWriter W × Bool
  unfolding work
  send msg a =
      let a' = if is_full a then work a else a in
      if a'.worker.alive then (record a' { queue = a'.queue ++ msg ∷ [] }, true) else (a', false)

  -- With a sender, in each mode.
  unfoldable pub enqueue_in : WriteMode → Msg → AsyncWriter W → AsyncWriter W × IoResult
  unfolding send unavailable drop_record
  enqueue_in blocking msg a =
      let (a', sent) = send msg a in
      if sent
      then (a', none)
      else unavailable "eventline async writer thread is not available" (lost a')
  enqueue_in best_effort msg a =
      if a.worker.alive
      then (if is_full a then (lost a, none) else (record a { queue = a.queue ++ msg ∷ [] }, none))
      else unavailable "eventline async writer thread is not available" (lost a)

  -- `AsyncWriter::enqueue`.
  unfoldable pub enqueue : Msg → AsyncWriter W → AsyncWriter W × IoResult
  unfolding enqueue_in unavailable drop_record
  enqueue msg a =
      if a.has_sender
      then enqueue_in a.mode msg a
      else unavailable "eventline async writer is shut down" (lost a)

  -- `impl Writer for AsyncWriter`.
  unfoldable pub set_run_id : String → AsyncWriter W → AsyncWriter W
  unfolding send unavailable
  set_run_id id a =
      if a.has_sender
      then (let (a', sent) = send (run_id id) a in
          if sent then a' else (unavailable "eventline async writer thread is not available" a').0)
      else (unavailable "eventline async writer thread is not available" a).0

  unfoldable pub write_scope : Scope → AsyncWriter W → AsyncWriter W × IoResult
  unfolding enqueue
  write_scope s a = if a.scope_metadata then enqueue (scope s) a else (a, none)

  unfoldable pub write_record : Record → Option Scope → AsyncWriter W → AsyncWriter W × IoResult
  unfolding enqueue
  write_record r s a = enqueue (entry r s) a

  unfoldable pub flush : AsyncWriter W → AsyncWriter W × IoResult
  unfolding send unavailable drain
  flush a =
      if a.has_sender
      then (let (a', sent) = send flush_all a in
          let a'' = drain a' in
          if sent
          then (if a''.worker.alive
              then (a'', a''.worker.reply)
              else unavailable "eventline async writer did not acknowledge flush" a'')
          else unavailable "eventline async writer thread is not available" a')
      else unavailable "eventline async writer is shut down" a

  -- `Drop for AsyncWriter`, up to the end of the worker.
  unfoldable pub drop_writer : AsyncWriter W → AsyncWriter W
  unfolding drain
  drop_writer a =
      let drained = drain (record a { has_sender = false }) in
      if drained.worker.alive
      then (let (inner, r) = sink.flush drained.worker.inner in
          record drained {
            worker = record (drained.worker) { inner = inner; alive = false };
            state = note (noted "flushing writer at shutdown" r) drained.state;
          })
      else drained

  -- `try_spawn_with_state`, where the thread may not start.
  unfoldable pub try_spawn_with_state :
      Option IoError → W → ℕ → WriteMode → WriterState → IoError ⊎ AsyncWriter W
  try_spawn_with_state (some e) inner queue_cap mode state = inl e
  try_spawn_with_state none inner queue_cap mode state = inr (record {
    worker = record { inner = inner; pending_error = none; reply = none; alive = true };
    queue = [];
    queue_cap = queue_cap;
    mode = mode;
    scope_metadata = sink.wants_scope_metadata inner;
    has_sender = true;
    state = state;
  })

  -- `spawn_with_mode`: a thread that did not start leaves a writer that is shut down.
  unfoldable pub spawn_with_mode : Option IoError → W → ℕ → WriteMode → AsyncWriter W
  unfolding try_spawn_with_state
  spawn_with_mode denied inner queue_cap mode =
      elim (try_spawn_with_state denied inner queue_cap mode no_diagnostics) [
        | inr a ↦ a
        | inl e ↦ record {
          worker = record { inner = inner; pending_error = none; reply = none; alive = false };
          queue = [];
          queue_cap = queue_cap;
          mode = mode;
          scope_metadata = sink.wants_scope_metadata inner;
          has_sender = false;
          state = record_error "starting background writer" e no_diagnostics;
        }
      ]
