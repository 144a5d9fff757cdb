-- ===== src/Buffer/Scopes/Closing.antt =====
-- Exit messages and scope exits, compared with the same changes of a plain list of scopes.
use eventline.Prelude.{
  ℕ, ◌+◌, ◌≡◌, refl, sym, ap, ◌∙◌, Bool, true, false, Option, none, some, List, [], ◌∷◌, inl, inr,
  arith, if◌then◌else◌, ok, ◌>>=◌, Returns, length, length-set, get_elem?, set, position,
  Option-cases, Bool-cases,
}
use eventline.Core.{Scope, ExitMessages}
use eventline.Buffer.Positions.{count, holds}
use eventline.Buffer.Positions.Locate.{locate-position}
use eventline.Buffer.Scopes.{BufferedScope, Scopes, slot_id, is_closed, live, set_insert}
use eventline.Buffer.Scopes.Sound.{IsSound, place_lem, slot-position}
use eventline.Buffer.Scopes.Exit.{
  get_mut, with_messages, set_scope_exit_messages, exited, exit_duration, finalize_at,
  finalize_scope_exit_at,
}
use eventline.Buffer.Scopes.Update.{
  modify_first, find_scope, Hit, hit, live-set, locate-set, closed_keys-set, closed_keys-close,
}

-- `set_scope_exit_messages` and `finalize_scope_exit_at` on a plain list.
unfoldable pub vector_messages : List BufferedScope → ℕ → ExitMessages → List BufferedScope × Bool
vector_messages bs id msgs = elim (find_scope id bs) [
  | none ↦ (bs, false)
  | some b ↦ (modify_first id (with_messages msgs) bs, true)
]

unfoldable pub vector_finalize :
    List BufferedScope → ℕ → ℕ → ℕ → List BufferedScope × Option (Scope × ℕ)
vector_finalize bs id millis at = elim (find_scope id bs) [
  | none ↦ (bs, none)
  | some b ↦ if is_closed b then (bs, none) else (
    modify_first id (exited millis at) bs,
    some ((exited millis at b).scope, exit_duration b millis at),
  )
]

-- The outcome of `get_mut`: nothing where no scope has the identifier, its first slot otherwise.
data Reached (s : Scopes) (id : ℕ) : Type 0 where
  missed : get_mut s id ≡ ok none → find_scope id (live s.entries) ≡ none → Reached s id
  reached :
      (i : ℕ) (h : Hit id i s.entries)
      → position (holds slot_id id) s.entries ≡ some i
      → get_mut s id ≡ ok (some (i, h.here))
      → Reached s id

reach : (s : Scopes) (id : ℕ) → IsSound s → Reached s id
unfolding get_mut
reach s id v = elim (Option-cases (position (holds slot_id id) s.entries)) [
  | inl e ↦ missed (rw (place_lem s id v, ◌>>=◌, e)) (ground (arith, e, slot-position id s.entries))
  | inr (i, e) ↦
      let h = hit id i s.entries e in reached i h e (rw (place_lem s id v, ◌>>=◌, e, h.at))
]

-- A write that keeps the identifier and the closed state keeps the invariant.
write-IsSound :
    (s : Scopes) (i : ℕ) (b c : BufferedScope)
    → IsSound s
    → get_elem? s.entries i ≡ some (some b)
    → c.scope.id ≡ b.scope.id
    → is_closed c ≡ is_closed b
    → length (live (set s.entries i (some c))) ≡ length (live s.entries)
    → IsSound (record s { entries = set s.entries i (some c) })
write-IsSound s i b c v at same shut size = record {
  roomy = omega (arith, v.roomy, length-set s.entries i (some c));
  indexed = λ j. v.indexed j ∙ sym (locate-set s.base i j b c s.entries at same);
  closed = v.closed ∙ sym (closed_keys-set s.base i b c s.entries at shut);
  counted = v.counted ∙ sym size;
}

length-modify_first :
    (id : ℕ) (f : BufferedScope → BufferedScope) (bs : List BufferedScope)
    → length (modify_first id f bs) ≡ length bs
unfolding modify_first
length-modify_first id f [] = refl
length-modify_first id f (b ∷ bs) = ground (arith, length-modify_first id f bs)

pub set_scope_exit_messages_lem :
    (s : Scopes) (id : ℕ) (msgs : ExitMessages)
    → IsSound s
    → Returns (set_scope_exit_messages s id msgs) λ (t, r).
      IsSound t
      × (length t.entries ≡ length s.entries)
      × ((live t.entries, r) ≡ vector_messages (live s.entries) id msgs)
unfolding set_scope_exit_messages vector_messages with_messages
set_scope_exit_messages_lem s id msgs v = elim (reach s id v) [
  | missed run none_found ↦
      ((s, false), rw (run, set_scope_exit_messages), (v, refl, rw (none_found, vector_messages)))
  | reached i h e run ↦
      let c = with_messages msgs h.here in
      let shown = live-set id i (with_messages msgs) h.here s.entries e h.at in
      (
        (record s { entries = set s.entries i (some c) }, true),
        rw run,
        (
          write-IsSound s i h.here c v h.at refl refl
              (ap length shown ∙ length-modify_first id (with_messages msgs) (live s.entries)),
          length-set s.entries i (some c),
          rw (h.first, vector_messages, shown),
        ),
      )
]

-- A scope that was closed before is left as it is.
finalize_closed :
    (s : Scopes) (id millis at : ℕ) (i : ℕ) (b : BufferedScope)
    → is_closed b ≡ true
    → finalize_at s id millis at (i, b) ≡ ok (s, none)
unfolding finalize_at
finalize_closed s id millis at i b shut = rw shut

pub finalize_scope_exit_at_lem :
    (s : Scopes) (id millis at : ℕ)
    → IsSound s
    → Returns (finalize_scope_exit_at s id millis at) λ (t, r).
      IsSound t
      × (length t.entries ≡ length s.entries)
      × ((live t.entries, r) ≡ vector_finalize (live s.entries) id millis at)
unfolding finalize_scope_exit_at vector_finalize exited
finalize_scope_exit_at_lem s id millis at v = elim (reach s id v) [
  | missed run none_found ↦ ((s, none), rw run, (v, refl, rw (none_found, vector_finalize)))
  | reached i h e run ↦ elim (Bool-cases (is_closed h.here)) [
    | inl shut ↦ (
      (s, none),
      rw run (finalize_closed s id millis at i h.here shut),
      (v, refl, rw (h.first, vector_finalize, shut)),
    )
    | inr still ↦
        let c = exited millis at h.here in
        let shown = live-set id i (exited millis at) h.here s.entries e h.at in
        let place : s.by_id id
            ≡ some (record { first = s.base + i; count = count slot_id id s.entries }) =
          v.indexed id ∙ ground (arith, locate-position slot_id s.base id s.entries, e) in
        (
          (
            record s {
              entries = set s.entries i (some c);
              exited = set_insert (s.base + i) s.exited;
            },
            some (c.scope, exit_duration h.here millis at),
          ),
          rw (run, still, place),
          (
            record {
              roomy = omega (arith, v.roomy, length-set s.entries i (some c));
              indexed = λ j. v.indexed j ∙ sym (locate-set s.base i j h.here c s.entries h.at refl);
              closed =
                  ap (set_insert (s.base + i)) v.closed
                  ∙ sym (closed_keys-close s.base i h.here c s.entries h.at still refl);
              counted =
                  v.counted
                  ∙ sym (
                      ap length shown ∙ length-modify_first id (exited millis at) (live s.entries));
            },
            length-set s.entries i (some c),
            rw (h.first, vector_finalize, still, shown),
          ),
        )
  ]
]
