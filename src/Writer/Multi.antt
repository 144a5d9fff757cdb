-- ===== src/Writer/Multi.antt =====
-- `MultiWriter` of src/journal/writer.rs, over writers of one type `W`, as `Box<dyn Writer>` is.
use eventline.Prelude.{
  ◌≡◌, or_else, refl, Bool, true, false, Option, none, some, List, [], ◌∷◌, map, arith,
  if◌then◌else◌,
}
use eventline.Core.{Record, Scope}
use eventline.Writer.{Writer, IoResult}

-- `first_error.get_or_insert(error)` where there is an error.
abbrev pub keep_first : IoResult → IoResult → IoResult
keep_first first r = or_else first r

-- The loop over the writers, with the first error so far.
unfoldable pub each_from : {W : Type 0} → (W → W × IoResult) → IoResult → List W → List W × IoResult
each_from f first [] = ([], first)
each_from f first (w ∷ ws) =
    let (w', r) = f w in let (ws', last) = each_from f (keep_first first r) ws in (w' ∷ ws', last)

unfoldable pub each : {W : Type 0} → (W → W × IoResult) → List W → List W × IoResult
unfolding each_from
each f ws = each_from f none ws

unfoldable pub any_wants : {W : Type 0} → Writer W → List W → Bool
any_wants sink [] = false
any_wants sink (w ∷ ws) = if sink.wants_scope_metadata w then true else any_wants sink ws

-- `impl Writer for MultiWriter`.
unfoldable pub multi_writer : {W : Type 0} → Writer W → Writer (List W)
unfolding each any_wants
multi_writer sink = record {
  wants_scope_metadata = any_wants sink;
  set_run_id = λ id ws. map (sink.set_run_id id) ws;
  write_scope = λ s ws. each (sink.write_scope s) ws;
  write_record = λ r scope ws. each (sink.write_record r scope) ws;
  flush = λ ws. each sink.flush ws;
}

-- The first error of a list of results.
abbrev pub first_error : List IoResult → IoResult
first_error [] = none
first_error (r ∷ rs) = or_else r (first_error rs)

pub each_from_lem :
    {W : Type 0} (f : W → W × IoResult) (first : IoResult) (ws : List W)
    → each_from f first ws
      ≡ (map (λ w. (f w).0) ws, or_else first (first_error (map (λ w. (f w).1) ws)))
unfolding each_from
each_from_lem f first [] = ground arith
each_from_lem f none (w ∷ ws) = rw (each_from_lem f (f w).1 ws) refl
each_from_lem f (some e) (w ∷ ws) = rw (each_from_lem f (some e) ws) refl

-- For every sink and every list of writers, a scope, a record or a flush reaches every one of them,
-- whatever the others answer, and the answer is the first error in their order, if there is one.
pub multi_writer-first_error :
    {W : Type 0} (sink : Writer W) (ws : List W) (s : Scope) (r : Record) (scope : Option Scope)
    → let multi = multi_writer sink in
      (multi.write_scope s ws ≡ (
        map (λ w. (sink.write_scope s w).0) ws,
        first_error (map (λ w. (sink.write_scope s w).1) ws),
      ))
      × (multi.write_record r scope ws ≡ (
        map (λ w. (sink.write_record r scope w).0) ws,
        first_error (map (λ w. (sink.write_record r scope w).1) ws),
      ))
      × (multi.flush ws
          ≡ (map (λ w. (sink.flush w).0) ws, first_error (map (λ w. (sink.flush w).1) ws)))
unfolding multi_writer each
multi_writer-first_error sink ws s r scope = (
  each_from_lem (sink.write_scope s) none ws,
  each_from_lem (sink.write_record r scope) none ws,
  each_from_lem sink.flush none ws,
)
