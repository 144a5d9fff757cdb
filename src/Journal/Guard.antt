-- ===== src/Journal/Guard.antt =====
-- `ScopeGuard` of src/core/scope.rs: leaving a journal scope exactly once.
use eventline.Prelude.{ℕ, String, Bool, true, false, if◌then◌else◌, Run, ok, ◌>>=◌}
use eventline.Core.{Outcome, success, failure}
use eventline.Writer.{Writer}
use eventline.Journal.{Journal, Now, enter_scope}
use eventline.Journal.Calls.{exit_scope}

-- The guard holds the journal; the borrow makes the two one state.
pub record ScopeGuard (W : Type 0) : Type 0 where
  pub journal : Journal W
  pub scope_id : ℕ
  pub exited : Bool

module _ {W : Type 0} (sink : Writer W) where
  -- `Journal::scope_guard` and `ScopeGuard::new`.
  unfoldable pub scope_guard : Journal W → String → Now → Run (ScopeGuard W)
  scope_guard j name now = do
    (j', id) ← enter_scope sink j name now
    ok (record { journal = j'; scope_id = id; exited = false })

  -- `ScopeGuard::exit`: a call after the first does nothing.
  unfoldable pub exit : ScopeGuard W → Outcome → Now → Run (ScopeGuard W)
  exit g outcome now = if g.exited then ok g else (do
    (j, id) ← exit_scope sink g.journal g.scope_id outcome now
    ok (record g { journal = j; exited = true }))

  -- `ScopeGuard::exit_result`; `is_ok` tells whether the result is `Ok`.
  unfoldable pub exit_result : ScopeGuard W → Bool → Now → Run (ScopeGuard W)
  exit_result g is_ok now = exit g (if is_ok then success else failure) now

  -- `Drop`: the outcome depends on whether the thread is unwinding.
  unfoldable pub drop_guard : ScopeGuard W → Bool → Now → Run (ScopeGuard W)
  drop_guard g panicking now = if g.exited then ok g else (do
    (j, id) ← exit_scope sink g.journal g.scope_id (if panicking then failure else success) now
    ok (record g { journal = j; exited = true }))
