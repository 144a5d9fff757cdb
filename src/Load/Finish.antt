-- ===== src/Load/Finish.antt =====
-- `RunBuilder::finish` of src/replay/load.rs: placeholders for scopes without metadata, and the repair of
-- cycles. The walk along the parents is recursion on fuel, one more than the scopes; running out of it
-- is `panic`.
use eventline.Prelude.{
  ℕ, zero, suc, ◌+◌, String, Bool, true, false, Option, none, some, List, [], ◌∷◌, ◌++◌, map, ◌==◌,
  if◌then◌else◌, Run, ok, panic, ◌>>=◌, unwrap, is_some, length, get_elem?, set, HashMap, insert,
}
use eventline.Core.{Scope, no_messages}
use eventline.Replay.{filter_map}
use eventline.Load.{
  RunBuilder, SavedRun, ReplayIssue, ReplayIssueKind, missing_scope_metadata, invalid_hierarchy,
}

-- An issue without a line.
abbrev pub found_issue : Option String → ReplayIssueKind → ReplayIssue
found_issue source kind = record { source = source; line = none; kind = kind }

-- The identifiers that scopes and records refer to.
unfoldable pub needed : RunBuilder → List ℕ
needed b = filter_map (λ s. s.parent) b.run.scopes ++ filter_map (λ r. r.scope) b.run.records

abbrev pub placeholder : ℕ → Scope
placeholder id = record {
  id = id;
  parent = none;
  entered_at = 0;
  name = none;
  exited_at = none;
  exit_messages = no_messages;
}

-- The builder with a placeholder for an identifier.
abbrev pub with_placeholder : RunBuilder → ℕ → RunBuilder
with_placeholder b id = record b {
  scopes = insert b.scopes id (length b.run.scopes);
  run = record (b.run) {
    scopes = b.run.scopes ++ placeholder id ∷ [];
    missing_scope_metadata = b.run.missing_scope_metadata ++ id ∷ [];
  };
}

-- `for id in needed { … }`
unfoldable pub add_missing : RunBuilder → List ℕ → RunBuilder × List ReplayIssue
add_missing b [] = (b, [])
add_missing b (id ∷ ids) =
    if is_some (b.scopes id)
    then add_missing b ids
    else (let (c, issues) = add_missing (with_placeholder b id) ids in
        (c, found_issue b.source missing_scope_metadata ∷ issues))

-- `HashSet::contains`, for a set that is kept as a list of its elements.
abbrev pub contains : List ℕ → ℕ → Bool
contains [] x = false
contains (y ∷ ys) x = if y == x then true else contains ys x

-- `self.run.scopes[index].parent = None`
abbrev pub cut_at : List Scope → ℕ → Scope → List Scope
cut_at scopes i s = set scopes i (record s { parent = none })

-- What a walk leaves: the scopes, the path, and whether a link was cut.
pub record Walked : Type 0 where
  pub scopes : List Scope
  pub path : List ℕ
  pub cut : Bool

-- `while let Some(id) = current { … }`, with `index` for `self.scopes`.
unfoldable pub walk : ℕ → HashMap ℕ → List ℕ → List Scope → List ℕ → Option ℕ → Run Walked
walk zero index visited scopes path current = panic
walk (suc fuel) index visited scopes path none =
    ok (record { scopes = scopes; path = path; cut = false })
walk (suc fuel) index visited scopes path (some id) = elim (contains visited id) [
  | true ↦ ok (record { scopes = scopes; path = path; cut = false })
  | false ↦ do
    i ← unwrap (index id)
    s ← unwrap (get_elem? scopes i)
    elim (contains path id) [
      | true ↦ ok (record { scopes = cut_at scopes i s; path = path; cut = true })
      | false ↦ walk fuel index visited scopes (id ∷ path) s.parent
    ]
]

-- `for start in … { … done.extend(path); }`; `visited` is the source's `done`.
unfoldable pub repair :
    Option String → HashMap ℕ → List ℕ → List Scope → List ℕ → Run (List Scope × List ReplayIssue)
unfolding walk
repair source index visited scopes [] = ok (scopes, [])
repair source index visited scopes (start ∷ starts) = do
  w ← walk (length scopes + 1) index visited scopes [] (some start)
  (scopes', issues) ← repair source index (w.path ++ visited) w.scopes starts
  ok (scopes', if w.cut then found_issue source invalid_hierarchy ∷ issues else issues)

-- `RunBuilder::finish`.
unfoldable pub finish : RunBuilder → Run (SavedRun × List ReplayIssue)
unfolding needed add_missing repair
finish b = do
  let (c, missing) = add_missing b (needed b)
  (scopes, cuts) ← repair c.source c.scopes [] c.run.scopes (map (λ s. s.id) c.run.scopes)
  ok (record (c.run) { scopes = scopes }, missing ++ cuts)
