-- ===== src/Journal/Leaving.antt =====
-- A `ScopeGuard` (src/core/scope.rs) leaves its scope exactly once, whatever is called on it.
use eventline.Prelude.{
  ℕ, ◌≡◌, refl, Bool, true, false, List, [], ◌∷◌, if◌then◌else◌, Run, ok, panic, ◌>>=◌,
}
use eventline.Core.{Outcome, success, failure}
use eventline.Writer.{Writer}
use eventline.Journal.{Journal, Now}
use eventline.Journal.Calls.{exit_scope}
use eventline.Journal.Guard.{ScopeGuard, exit, exit_result, drop_guard}

-- `exit`, and `exit_result` with whether the result is `Ok`.
pub data GuardCall : Type 0 where
  exits : Outcome → Now → GuardCall
  results : Bool → Now → GuardCall

-- The outcome and the time of the first call, or those of the drop where there is none.
pub first_exit : List GuardCall → Bool → Now → Outcome × Now
first_exit [] panicking now = (if panicking then failure else success, now)
first_exit (exits outcome at ∷ calls) panicking now = (outcome, at)
first_exit (results is_ok at ∷ calls) panicking now = (if is_ok then success else failure, at)

module _ {W : Type 0} (sink : Writer W) where
  pub guard_call : ScopeGuard W → GuardCall → Run (ScopeGuard W)
  guard_call g (exits outcome now) = exit sink g outcome now
  guard_call g (results is_ok now) = exit_result sink g is_ok now

  -- The calls on a guard, and then its drop.
  pub live_guard : ScopeGuard W → List GuardCall → Bool → Now → Run (ScopeGuard W)
  live_guard g [] panicking now = drop_guard sink g panicking now
  live_guard g (c ∷ calls) panicking now = do g' ← guard_call g c; live_guard g' calls panicking now

  -- One exit, and the guard is marked.
  pub exit_once : ScopeGuard W → Outcome → Now → Run (ScopeGuard W)
  exit_once g outcome now = do
    (j, id) ← exit_scope sink g.journal g.scope_id outcome now
    ok (record g { journal = j; exited = true })

  live_guard-exited :
      (j : Journal W) (id : ℕ) (calls : List GuardCall) (panicking : Bool) (now : Now)
      → let g : ScopeGuard W = record { journal = j; scope_id = id; exited = true } in
        live_guard g calls panicking now ≡ ok g
  unfolding live_guard guard_call exit exit_result drop_guard
  live_guard-exited j id [] panicking now = refl
  live_guard-exited j id (exits outcome at ∷ calls) panicking now =
      live_guard-exited j id calls panicking now
  live_guard-exited j id (results is_ok at ∷ calls) panicking now =
      live_guard-exited j id calls panicking now

  after_exit :
      (g : ScopeGuard W) (outcome : Outcome) (at : Now) (calls : List GuardCall) (panicking : Bool)
      (now : Now) (r : Run (Journal W × ℕ))
      → (r >>= λ (j, id). ok (record g { journal = j; exited = true }))
          >>= (λ g'. live_guard g' calls panicking now)
        ≡ r >>= λ (j, id). ok (record g { journal = j; exited = true })
  after_exit g outcome at calls panicking now panic = refl
  after_exit g outcome at calls panicking now (ok (j, id)) =
      live_guard-exited j g.scope_id calls panicking now

  -- Any sequence of `exit` and `exit_result` on a guard that was not exited, followed by its drop,
  -- is one `exit_scope` of its scope, with the outcome of the first of them.
  pub live_guard-exit_once :
      (g : ScopeGuard W) (calls : List GuardCall) (panicking : Bool) (now : Now)
      → g.exited ≡ false
      → let (outcome, at) = first_exit calls panicking now in
        live_guard g calls panicking now ≡ exit_once g outcome at
  unfolding live_guard exit_once first_exit guard_call exit exit_result drop_guard
  live_guard-exit_once g [] panicking now e = rw e
  live_guard-exit_once g (exits outcome at ∷ calls) panicking now e = rw e (
      after_exit g outcome at calls panicking now (exit_scope sink g.journal g.scope_id outcome at))
  live_guard-exit_once g (results is_ok at ∷ calls) panicking now e =
      let outcome = if is_ok then success else failure in
      rw e (
        after_exit g outcome at calls panicking now
          (exit_scope sink g.journal g.scope_id outcome at))
