-- ===== src/Buffer/Scopes/Exit.antt =====
-- The calls of `Buffer` (src/journal/buffer.rs) that read or change one scope: exit messages, the
-- exit itself, the elapsed time, and positional access.
use eventline.Prelude.{
  ℕ, ◌-◌, or_else, Bool, true, false, Option, none, some, List, [], map, ◌==◌, if◌then◌else◌, Run,
  ok, ◌>>=◌, unwrap, length, get_elem?, set, no_keys,
}
use eventline.Core.{Scope, ExitMessages, scope_elapsed}
use eventline.Buffer.Scopes.{
  ScopeClock, BufferedScope, Scopes, is_closed, live, set_insert, slot_at, place, get,
}

-- `Scopes::get_mut`: the place and the scope behind the reference.
unfoldable pub get_mut : Scopes → ℕ → Run (Option (ℕ × BufferedScope))
get_mut s id = do
  i ← place s id
  ok (elim i [
    | none ↦ none
    | some i ↦ elim (slot_at s.entries i) [ none ↦ none | some b ↦ some (i, b) ]
  ])

-- Messages that are given replace those that were there.
unfoldable pub merge_messages : ExitMessages → ExitMessages → ExitMessages
merge_messages old msgs = record {
  on_success = or_else msgs.on_success old.on_success;
  on_failure = or_else msgs.on_failure old.on_failure;
  on_aborted = or_else msgs.on_aborted old.on_aborted;
}

unfoldable pub with_messages : ExitMessages → BufferedScope → BufferedScope
unfolding merge_messages
with_messages msgs b = record b {
  scope = record (b.scope) { exit_messages = merge_messages b.scope.exit_messages msgs };
}

-- `Buffer::set_scope_exit_messages`: whether the scope was found.
unfoldable pub set_scope_exit_messages : Scopes → ℕ → ExitMessages → Run (Scopes × Bool)
set_scope_exit_messages s id msgs = do
  place ← get_mut s id
  elim place [
    | none ↦ ok (s, false)
    | some (i, b) ↦ ok (record s { entries = set s.entries i (some (with_messages msgs b)) }, true)
  ]

-- The duration that an exit fixes: by the monotonic clock where there is one. The scope is closed
-- by then, so `scope_elapsed` reads no clock.
unfoldable pub exit_duration : BufferedScope → ℕ → ℕ → ℕ
exit_duration b millis at = elim b.clock [
  | some c ↦ at - c.started_at
  | none ↦ scope_elapsed (record (b.scope) { exited_at = some millis }) millis
]

unfoldable pub finish_clock : Option ScopeClock → ℕ → Option ScopeClock
finish_clock none at = none
finish_clock (some c) at = some (record c { finished = some (at - c.started_at) })

-- The scope with `exited_at` set and its clock stopped.
unfoldable pub exited : ℕ → ℕ → BufferedScope → BufferedScope
unfolding finish_clock
exited millis at b = record {
  scope = record (b.scope) { exited_at = some millis };
  clock = finish_clock b.clock at;
}

-- The exit of the scope at a place, where it is still open.
unfoldable pub finalize_at :
    Scopes → ℕ → ℕ → ℕ → ℕ × BufferedScope → Run (Scopes × Option (Scope × ℕ))
finalize_at s id millis at (i, b) = if is_closed b then ok (s, none) else (do
  p ← unwrap (s.by_id id)
  ok (
    record s {
      entries = set s.entries i (some (exited millis at b));
      exited = set_insert p.first s.exited;
    },
    some ((exited millis at b).scope, exit_duration b millis at),
  ))

-- `Buffer::finalize_scope_exit_at`: the closed scope and its duration, or nothing where the scope
-- is unknown or was closed before.
unfoldable pub finalize_scope_exit_at : Scopes → ℕ → ℕ → ℕ → Run (Scopes × Option (Scope × ℕ))
unfolding finalize_at
finalize_scope_exit_at s id millis at = do
  place ← get_mut s id
  elim place [ none ↦ ok (s, none) | some found ↦ finalize_at s id millis at found ]

-- `BufferedScope::elapsed`; `now` and `wall` are the readings of the two clocks.
unfoldable pub elapsed : BufferedScope → ℕ → ℕ → ℕ
elapsed b now wall = elim b.clock [
  | some c ↦ elim c.finished [ none ↦ now - c.started_at | some d ↦ d ]
  | none ↦ scope_elapsed b.scope wall
]

-- `Buffer::get_scope_elapsed`.
unfoldable pub get_scope_elapsed : Scopes → ℕ → ℕ → ℕ → Run (Option ℕ)
get_scope_elapsed s id now wall = do
  b ← get s id
  ok (elim b [ none ↦ none | some b ↦ some (elapsed b now wall) ])

-- `Buffer::get_scope_by_id`.
unfoldable pub get_scope_by_id : Scopes → ℕ → Run (Option Scope)
get_scope_by_id s id = do b ← get s id; ok (elim b [ none ↦ none | some b ↦ some b.scope ])

-- `Buffer::get_scope`: by the slot where no slot is vacant, and by a scan otherwise.
unfoldable pub get_scope : Scopes → ℕ → Option Scope
get_scope s idx =
    elim (if s.len == length s.entries
      then slot_at s.entries idx
      else get_elem? (live s.entries) idx) [ none ↦ none | some b ↦ some b.scope ]

-- `Buffer::scopes_len`, `Buffer::scopes_snapshot`, and the scope half of `Buffer::clear`.
unfoldable pub scopes_len : Scopes → ℕ
scopes_len s = s.len

unfoldable pub scopes_snapshot : Scopes → List Scope
scopes_snapshot s = map (λ b. b.scope) (live s.entries)

unfoldable pub clear : Scopes → Scopes
clear s = record { entries = []; by_id = no_keys; exited = []; base = 0; len = 0 }
