-- ===== src/Render/Durations.antt =====
-- The digits and the rounding of `format_duration_ns` (src/render.rs).
use eventline.Prelude.{
  ℕ, zero, suc, ◌+◌, ◌*◌, ◌^◌, ◌/◌, ◌≤◌, ◌<◌, ◌≡◌, String, Option, none, some, List, [], ◌∷◌, ◌⊎◌,
  arith, ltb, leb, if_split, ◌-◌, if◌then◌else◌, ◌&&◌,
}
use Prim.Native.String.append
use Prim.Native.String.{[], ◌∷◌, ◌++◌}
use Prim.Native.Char.{code}
use eventline.Render.{digits}

-- The number that a decimal text stands for, behind the digits of `n`; none for another text.
abbrev pub read_decimal : ℕ → String → Option ℕ
read_decimal n [] = some n
read_decimal n (c ∷ text) =
    if leb 48 (code c) && leb (code c) 57 then read_decimal (n * 10 + (code c - 48)) text else none

-- The number of digits that are read, the last one first.
abbrev pub read_digits : List ℕ → ℕ
read_digits [] = 0
read_digits (d ∷ ds) = d + 10 * read_digits ds

abbrev pub AllDigits : List ℕ → Type 0
AllDigits [] = Unit
AllDigits (d ∷ ds) = (d < 10) × AllDigits ds

-- With fuel for them, the digits are decimal digits that give back the number.
pub digits_lem :
    (fuel n : ℕ) → n < 10 ^ fuel → (read_digits (digits fuel n) ≡ n) × AllDigits (digits fuel n)
unfolding digits
digits_lem zero n h = (omega arith, tt)
digits_lem (suc fuel) n h =
    let less : n / 10 < 10 ^ fuel = omega arith in
    if_split (λ ds. (read_digits ds ≡ n) × AllDigits ds) (ltb n 10)
      (λ small. (omega arith, (ground (arith, small), tt)))
      (λ large.
        let (value, all) = digits_lem fuel (n / 10) less in
        (omega (arith, value), (omega arith, all)))

-- A whole number of a unit of `u` nanoseconds: the time, less what is under the unit.
abbrev pub InWholes : ℕ → String → ℕ → String → Type 0
InWholes u unit ns text =
    (number : String) × (whole : ℕ) × (text ≡ number ++ unit)
    × (read_decimal 0 number ≡ some whole)
    × (whole * u ≤ ns)
    × (ns < whole * u + u)

-- A number of a unit with one decimal, a tenth of `d` nanoseconds: the time, less what is under the tenth.
abbrev pub InTenths : ℕ → String → ℕ → String → Type 0
InTenths d unit ns text =
    (number tenth : String) × (whole tenths : ℕ) × (text ≡ number ++ ("." ++ (tenth ++ unit)))
    × (read_decimal 0 number ≡ some whole)
    × (read_decimal 0 tenth ≡ some tenths)
    × (tenths < 10)
    × (whole * (10 * d) + tenths * d ≤ ns)
    × (ns < whole * (10 * d) + tenths * d + d)

-- The text of a duration, by its size.
abbrev pub Prints : ℕ → String → Type 0
Prints ns text =
    ((ns < 1000) × InWholes 1 "ns" ns text)
    ⊎ (((1000 ≤ ns) × (ns < 1000000) × InWholes 1000 "us" ns text)
        ⊎ (((1000000 ≤ ns) × (ns < 1000000000) × InTenths 100000 "ms" ns text)
            ⊎ ((1000000000 ≤ ns) × InTenths 100000000 "s" ns text)))
