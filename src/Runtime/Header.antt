-- ===== src/Runtime/Header.antt =====
-- `RunHeader` of src/runtime/run_header.rs, as bytes. The text of the process identifier is an argument.
use eventline.Prelude.{
  ℕ, zero, suc, ◌+◌, ◌-◌, ◌/◌, ◌≤◌, max, ◌≡◌, refl, ◌∙◌, Bool, true, false, List, [], ◌∷◌, ◌++◌,
  arith, ltb, if◌then◌else◌, length, length-append,
}

pub record RunHeader : Type 0 where
  pub title : List ℕ
  pub show_pid : Bool
  pub width : ℕ

-- `RunHeader::new`.
abbrev pub new : List ℕ → RunHeader
new title = record { title = title; show_pid = true; width = 72 }

-- `RunHeader::without_pid`.
abbrev pub without_pid : List ℕ → RunHeader
without_pid title = record { title = title; show_pid = false; width = 72 }

-- `RunHeader::with_width`.
abbrev pub with_width : RunHeader → ℕ → RunHeader
with_width h width = record h { width = width }

-- `"=".repeat(n)`.
abbrev pub bars : ℕ → List ℕ
bars zero = []
bars (suc n) = b'=' ∷ bars n

abbrev space : List ℕ
space = b' ' ∷ []

-- `format!(" {} (pid={}) ", ..)` and `format!(" {} ", ..)`.
unfoldable pub label : RunHeader → List ℕ → List ℕ
label h pid =
    if h.show_pid
    then space
      ++ (h.title ++ ((b' ' ∷ b'(' ∷ b'p' ∷ b'i' ∷ b'd' ∷ b'=' ∷ []) ++ (pid ++ (b')' ∷ space))))
    else space ++ (h.title ++ space)

-- The `=` that surround a label of this length.
unfoldable pub padding : ℕ → ℕ → ℕ
padding len width = if ltb (len + 4) width then width - len else 4

-- `RunHeader::render`.
unfoldable pub render : RunHeader → List ℕ → List ℕ
unfolding label padding
render h pid =
    let inner = label h pid in
    let n = padding (length inner) h.width in
    let left = n / 2 in bars left ++ (inner ++ bars (n - left))

length-bars : (n : ℕ) → length (bars n) ≡ n
length-bars zero = refl
length-bars (suc n) = omega (arith, length-bars n)

-- Counted in bytes, a rendered header has the width that was asked for, or is four longer than its label
-- where that is more; the label stands in it whole, with `=` on both sides: two at least, equally many, or one more on
-- the right.
pub render-width :
    (h : RunHeader) (pid : List ℕ)
    → (length (render h pid) ≡ max h.width (length (label h pid) + 4))
      × (left : ℕ) × (right : ℕ) × (render h pid ≡ bars left ++ (label h pid ++ bars right))
      × (2 ≤ left)
      × (left ≤ right)
      × (right ≤ left + 1)
unfolding render padding
render-width h pid =
    let inner = label h pid in
    let n = padding (length inner) h.width in
    let left = n / 2 in
    (
      length-append (bars left) (inner ++ bars (n - left))
          ∙ ground (
            arith,
            length-append inner (bars (n - left)),
            length-bars left,
            length-bars (n - left),
          ),
      left,
      n - left,
      refl,
      ground arith,
      ground arith,
      ground arith,
    )
