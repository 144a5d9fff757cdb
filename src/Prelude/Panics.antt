-- ===== src/Prelude/Panics.antt =====
-- Code that may panic, and `usize` arithmetic. `panic` stands for `unwrap` on `None`, an index out
-- of range, and an addition or a subtraction of `usize` that leaves the range (a debug build panics
-- there; a release build wraps). Code that is proved to return therefore agrees in both builds.
use Prim.Native.Nat.{ℕ, ◌+◌, ◌-◌, ◌≤◌}
use mathlib.Core.Path.{◌≡◌}
use mathlib.Core.Option.{Option, none, some}
use mathlib.Core.Bool.{Bool, true}
use native.Mathlib.Omega.{arith}
use eventline.Prelude.Tests.{leb, if◌then◌else◌}

pub data Run {ℓ} (Value : Type ℓ) : Type ℓ where
  panic : Run Value
  ok : Value → Run Value

-- `Option::unwrap`.
abbrev pub unwrap {ℓ} : {A : Type ℓ} → Option A → Run A
unwrap none = panic
unwrap (some a) = ok a

-- The code after a call does not run where the call panics.
infixl 5 ◌>>=◌ ◌>>◌
abbrev pub ◌>>=◌ {ℓ κ} :
    {Value : Type ℓ} {After : Type κ} → Run Value → (Value → Run After) → Run After
panic >>= rest = panic
ok value >>= rest = rest value

abbrev pub ◌>>◌ {ℓ κ} : {Value : Type ℓ} {After : Type κ} → Run Value → Run After → Run After
first >> second = first >>= λ _. second

-- No panic, and `Post` holds of what is returned.
abbrev pub Returns {ℓ κ} :
    {Value : Type ℓ} (call : Run Value) (Post : Value → Type κ) → Type (ℓ ⊔ κ)
Returns {Value} call Post = (value : Value) × (call ≡ ok value) × Post value

-- `usize::MAX` and `u64::MAX` on a 64-bit target.
abbrev pub usize_max : ℕ
usize_max = 18446744073709551615

abbrev pub checked_add : ℕ → ℕ → Option ℕ
checked_add a b = if leb (a + b) usize_max then some (a + b) else none

abbrev pub is_none_or {ℓ} : {A : Type ℓ} → Option A → (A → Bool) → Bool
is_none_or none p = true
is_none_or (some a) p = p a

abbrev pub add_usize : ℕ → ℕ → Run ℕ
add_usize a b = unwrap (checked_add a b)

abbrev pub sub_usize : ℕ → ℕ → Run ℕ
sub_usize a b = if leb b a then ok (a - b) else panic

pub add_usize_lem : (a b : ℕ) → a + b ≤ usize_max → add_usize a b ≡ ok (a + b)
add_usize_lem a b h = ground arith

pub sub_usize_lem : (a b : ℕ) → b ≤ a → sub_usize a b ≡ ok (a - b)
sub_usize_lem a b h = ground arith
