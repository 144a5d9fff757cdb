-- ===== src/Runtime/Guards.antt =====
-- `RuntimeScopeGuard` of src/core/scope.rs and the guard of `scope_async` in src/runtime/scope_context.rs: a
-- guard leaves its scope exactly once, whatever is called on it.
use eventline.Prelude.{
  ℕ, ◌≡◌, String, refl, Bool, true, false, List, [], ◌∷◌, if◌then◌else◌, Run, ok, panic, ◌>>=◌,
}
use eventline.Core.{Outcome, success, failure, aborted}
use eventline.Writer.{Writer}
use eventline.Journal.{Now}
use eventline.Runtime.{Runtime, enter_scope, exit_scope}

pub record RuntimeScopeGuard : Type 0 where
  pub id : ℕ
  pub exited : Bool

-- What is called on a guard while it lives; `exit_result` is told whether the result is `Ok`.
pub data GuardCall : Type 0 where
  exits : Outcome → Now → GuardCall
  results : Bool → Now → GuardCall

-- How a guard ends: `success`, `failure` and `aborted`, which exit and then drop it, its drop, and the
-- drop of the guard of an async scope. A drop is told whether the thread is unwinding.
pub data GuardEnd : Type 0 where
  succeeds fails aborts : GuardEnd
  drops drops_async : Bool → GuardEnd

abbrev pub outcome_of_result : Bool → Outcome
outcome_of_result is_ok = if is_ok then success else failure

module _ {W : Type 0} (sink : Writer W) where
  -- `RuntimeScopeGuard::enter`.
  unfoldable pub enter : Runtime W → ℕ → String → Now → Run (Runtime W × RuntimeScopeGuard)
  enter rt t name now = do
    (rt', id) ← enter_scope sink rt t name now
    ok (rt', record { id = id; exited = false })

  -- `RuntimeScopeGuard::exit`.
  unfoldable pub exit :
      Runtime W → ℕ → RuntimeScopeGuard → Outcome → Now → Run (Runtime W × RuntimeScopeGuard)
  exit rt t g outcome now = if g.exited then ok (rt, g) else (do
    rt' ← exit_scope sink rt t g.id outcome now
    ok (rt', record { id = g.id; exited = true }))

  -- `RuntimeScopeGuard::exit_result`.
  unfoldable pub exit_result :
      Runtime W → ℕ → RuntimeScopeGuard → Bool → Now → Run (Runtime W × RuntimeScopeGuard)
  exit_result rt t g is_ok now = exit rt t g (outcome_of_result is_ok) now

  -- `Drop`.
  unfoldable pub drop_guard :
      Runtime W → ℕ → RuntimeScopeGuard → Bool → Now → Run (Runtime W × RuntimeScopeGuard)
  drop_guard rt t g panicking now = if g.exited then ok (rt, g) else (do
    rt' ← exit_scope sink rt t g.id (if panicking then failure else success) now
    ok (rt', record { id = g.id; exited = true }))

  guard_call : Runtime W → ℕ → RuntimeScopeGuard → GuardCall → Run (Runtime W × RuntimeScopeGuard)
  guard_call rt t g (exits outcome now) = exit rt t g outcome now
  guard_call rt t g (results is_ok now) = exit_result rt t g is_ok now

  -- The drop of `AsyncScopeGuard` exits, and then the guard inside is dropped.
  unfoldable pub guard_end :
      Runtime W → ℕ → RuntimeScopeGuard → GuardEnd → Now → Run (Runtime W × RuntimeScopeGuard)
  guard_end rt t g succeeds now = do
    (rt', g') ← exit rt t g success now
    drop_guard rt' t g' false now
  guard_end rt t g fails now = do (rt', g') ← exit rt t g failure now; drop_guard rt' t g' false now
  guard_end rt t g aborts now = do
    (rt', g') ← exit rt t g aborted now
    drop_guard rt' t g' false now
  guard_end rt t g (drops panicking) now = drop_guard rt t g panicking now
  guard_end rt t g (drops_async panicking) now = do
    (rt', g') ← exit rt t g (if panicking then failure else aborted) now
    drop_guard rt' t g' panicking now

  -- The calls on a guard, and its end.
  unfoldable pub live_guard :
      Runtime W
      → ℕ
      → RuntimeScopeGuard
      → List GuardCall
      → GuardEnd
      → Now
      → Run (Runtime W × RuntimeScopeGuard)
  unfolding guard_call
  live_guard rt t g [] end now = guard_end rt t g end now
  live_guard rt t g (c ∷ calls) end now = do
    (rt', g') ← guard_call rt t g c
    live_guard rt' t g' calls end now

-- The outcome of the first call, or that of the end where there is none.
unfoldable pub first_outcome : List GuardCall → GuardEnd → Now → Outcome × Now
first_outcome [] succeeds now = (success, now)
first_outcome [] fails now = (failure, now)
first_outcome [] aborts now = (aborted, now)
first_outcome [] (drops panicking) now = (if panicking then failure else success, now)
first_outcome [] (drops_async panicking) now = (if panicking then failure else aborted, now)
first_outcome (exits outcome at ∷ calls) end now = (outcome, at)
first_outcome (results is_ok at ∷ calls) end now = (outcome_of_result is_ok, at)

module _ {W : Type 0} (sink : Writer W) where
  -- A guard that was exited does nothing more.
  guard_end-exited :
      (rt : Runtime W) (t id : ℕ) (end : GuardEnd) (now : Now)
      → let g : RuntimeScopeGuard = record { id = id; exited = true } in
        guard_end sink rt t g end now ≡ ok (rt, g)
  unfolding guard_end exit drop_guard
  guard_end-exited rt t id succeeds now = refl
  guard_end-exited rt t id fails now = refl
  guard_end-exited rt t id aborts now = refl
  guard_end-exited rt t id (drops panicking) now = refl
  guard_end-exited rt t id (drops_async panicking) now = refl

  live_guard-exited :
      (rt : Runtime W) (t id : ℕ) (calls : List GuardCall) (end : GuardEnd) (now : Now)
      → let g : RuntimeScopeGuard = record { id = id; exited = true } in
        live_guard sink rt t g calls end now ≡ ok (rt, g)
  unfolding live_guard guard_call exit exit_result
  live_guard-exited rt t id [] end now = guard_end-exited rt t id end now
  live_guard-exited rt t id (exits outcome at ∷ calls) end now =
      live_guard-exited rt t id calls end now
  live_guard-exited rt t id (results is_ok at ∷ calls) end now =
      live_guard-exited rt t id calls end now

  -- The exit, and the mark on the guard.
  abbrev marked : ℕ → Run (Runtime W) → Run (Runtime W × RuntimeScopeGuard)
  marked id r = r >>= λ rt. ok (rt, record { id = id; exited = true })

  marked_then :
      (t id : ℕ) (calls : List GuardCall) (end : GuardEnd) (now : Now) (r : Run (Runtime W))
      → marked id r >>= (λ (rt, g). live_guard sink rt t g calls end now) ≡ marked id r
  marked_then t id calls end now panic = refl
  marked_then t id calls end now (ok rt) = live_guard-exited rt t id calls end now

  marked_end :
      (t id : ℕ) (panicking : Bool) (now : Now) (r : Run (Runtime W))
      → marked id r >>= (λ (rt, g). drop_guard sink rt t g panicking now) ≡ marked id r
  unfolding drop_guard
  marked_end t id panicking now panic = refl
  marked_end t id panicking now (ok rt) = refl

  -- Whatever is called on a new guard, and however it ends, its scope is exited exactly once: with the
  -- outcome and at the time of the first call, or with those of the end where there was no call.
  pub live_guard-first_outcome :
      (rt : Runtime W) (t id : ℕ) (calls : List GuardCall) (end : GuardEnd) (now : Now)
      → let (outcome, at) = first_outcome calls end now in
        live_guard sink rt t (record { id = id; exited = false }) calls end now
        ≡ exit_scope sink rt t id outcome at >>= λ rt'. ok (rt', record { id = id; exited = true })
  unfolding live_guard guard_call exit exit_result drop_guard guard_end first_outcome
  live_guard-first_outcome rt t id [] succeeds now =
      marked_end t id false now (exit_scope sink rt t id success now)
  live_guard-first_outcome rt t id [] fails now =
      marked_end t id false now (exit_scope sink rt t id failure now)
  live_guard-first_outcome rt t id [] aborts now =
      marked_end t id false now (exit_scope sink rt t id aborted now)
  live_guard-first_outcome rt t id [] (drops panicking) now = refl
  live_guard-first_outcome rt t id [] (drops_async panicking) now =
      marked_end t id panicking now
        (exit_scope sink rt t id (if panicking then failure else aborted) now)
  live_guard-first_outcome rt t id (exits outcome at ∷ calls) end now =
      marked_then t id calls end now (exit_scope sink rt t id outcome at)
  live_guard-first_outcome rt t id (results is_ok at ∷ calls) end now =
      marked_then t id calls end now (exit_scope sink rt t id (outcome_of_result is_ok) at)
