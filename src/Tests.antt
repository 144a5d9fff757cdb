-- ===== src/Tests.antt =====
-- Runs of the model on concrete inputs, and the instances of the library's theorems there.
pub mod Buffers
pub mod FieldMaps
pub mod Journals
pub mod Replays
pub mod Rendered
pub mod Runtimes
pub mod Settings
pub mod Wires
pub mod Writers
use eventline.Prelude.{◌≡◌, Run, ok, panic, Returns, subst, sym, ap}

-- The value of a run, and a default where it panics.
abbrev pub value_of {ℓ} : {A : Type ℓ} → A → Run A → A
value_of d (ok a) = a
value_of d panic = d

pub value_of-Returns {ℓ κ} :
    {A : Type ℓ} (P : A → Type κ) (d : A) (r : Run A) → Returns r P → P (value_of d r)
value_of-Returns P d r (a, e, p) = subst P (sym (ap (value_of d) e)) p
