-- ===== src/Tests/Rendered.antt =====
-- Concrete lines of src/render.rs.
use Prim.Native.String.{compare}
use eventline.Prelude.{ℕ, ◌≡◌, ◌≢◌, refl, ap, String, none, some, true, false, List, [], ◌∷◌}
use eventline.Core.{Value, Fields, Record, RecordKind, warning}
use eventline.Runtime.Levels.{text}
use eventline.Runtime.Outputs.{ConsoleStyle, FileStyle}
use eventline.Render.{format_duration_ns, render_console, render_text}
use eventline.Render.Order.{swapped, render-Reordered}

-- A millisecond and two tenths.
printed : format_duration_ns 1234567 ≡ "1.2ms"
unfolding format_duration_ns
printed = refl

abbrev no_float : ℕ → String
no_float bits = "float"

abbrev as_is : String → String
as_is s = s

abbrev at_zero : ℕ → String
at_zero time = "0"

-- An event with these fields.
abbrev retry : Fields → Record
retry fields = record {
  id = 1;
  scope = none;
  time_ns = 0;
  kind = RecordKind.event warning "retry" fields;
}

abbrev console : ConsoleStyle
console = record {
  color = false;
  show_scope = true;
  show_scope_exit = true;
  show_duration = true;
  show_timestamp = true;
}

abbrev file : FileStyle
file = record { show_timestamp = false; show_scope = true; format = text }

abbrev fields : List (String × Value)
fields = ("b", Value.null) ∷ ("a", Value.uint 7) ∷ []

abbrev fields' : List (String × Value)
fields' = ("a", Value.uint 7) ∷ ("b", Value.null) ∷ []

apart : ◌≢◌ {A = String} "b" "a"
apart e = cc (ap (λ s. compare s "a") e)

render-Reordered_example :
    (render_console no_float as_is at_zero (retry (some fields)) none console
      ≡ render_console no_float as_is at_zero (retry (some fields')) none console)
    × (render_text no_float as_is at_zero (retry (some fields)) none file
        ≡ render_text no_float as_is at_zero (retry (some fields')) none file)
render-Reordered_example =
    render-Reordered no_float as_is at_zero 1 0 none warning "retry" fields fields' none console
      file (swapped ("b", Value.null) ("a", Value.uint 7) [] apart)

-- The line of the event, with its fields in the order of their keys.
line_of_retry :
    render_console no_float as_is at_zero (retry (some fields)) none console
    ≡ "[0] warn:  retry {a=7, b=null}"
unfolding render_console
line_of_retry = refl
