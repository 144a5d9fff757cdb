-- ===== src/Render.antt =====
-- The lines for people of src/render.rs. Formatting of times belongs to another crate, so that the text of a
-- timestamp is a parameter, as are the shortest text of a float and the quoted text of a string.
pub mod Order
pub mod Durations
use Prim.Native.String.{◌++◌, compare}
use Prim.Native.Nat.{Ordering}
use eventline.Prelude.{
  ℕ, zero, suc, ◌+◌, ◌/◌, ◌%◌, String, Bool, true, false, Option, none, some, List, [], ◌∷◌,
  get_elem?, ltb, ◌==◌, if◌then◌else◌,
}
use eventline.Core.{
  EventKind, Outcome, Signed, Value, Fields, Record, RecordKind, Scope, exit_message_for,
}
use eventline.Load.{same_string}
use eventline.Wire.{outcome_str_lower}
use eventline.Runtime.Outputs.{ConsoleStyle, FileStyle}

-- The decimal digits of a number, the last one first; `fuel` bounds their number.
unfoldable pub digits : ℕ → ℕ → List ℕ
digits zero n = []
digits (suc fuel) n =
    let rest = digits fuel (n / 10) in if ltb n 10 then n ∷ [] else (n % 10) ∷ rest

abbrev digit_texts : List String
digit_texts = "0" ∷ "1" ∷ "2" ∷ "3" ∷ "4" ∷ "5" ∷ "6" ∷ "7" ∷ "8" ∷ "9" ∷ []

digit_text : ℕ → String
digit_text n = elim (get_elem? digit_texts n) [ none ↦ "" | some text ↦ text ]

digits_text : List ℕ → String
unfolding digit_text
digits_text [] = ""
digits_text (d ∷ ds) = digits_text ds ++ digit_text d

-- The text of a `u64`, which has 20 digits at most.
unfoldable pub number_text : ℕ → String
unfolding digits digits_text
number_text n = digits_text (digits 20 n)

-- What `format_duration_ns` prints: a whole number, a tenth where there is one, and a unit.
pub record DurationText : Type 0 where
  pub whole : ℕ
  pub tenths : Option ℕ
  pub unit : String

unfoldable pub duration_parts : ℕ → DurationText
duration_parts ns =
    if ltb ns 1000
    then record { whole = ns; tenths = none; unit = "ns" }
    else (if ltb ns 1000000
        then record { whole = ns / 1000; tenths = none; unit = "us" }
        else (if ltb ns 1000000000
            then record { whole = ns / 1000000; tenths = some ((ns / 100000) % 10); unit = "ms" }
            else record {
              whole = ns / 1000000000;
              tenths = some ((ns / 100000000) % 10);
              unit = "s";
            }))

duration_text : DurationText → String
unfolding number_text
duration_text d =
    number_text d.whole
    ++ (elim d.tenths [ none ↦ "" | some tenths ↦ "." ++ number_text tenths ] ++ d.unit)

-- `format_duration_ns`.
unfoldable pub format_duration_ns : ℕ → String
unfolding duration_parts duration_text
format_duration_ns ns = duration_text (duration_parts ns)

unfoldable pub text_level_prefix : EventKind → String
text_level_prefix EventKind.debug = "debug: "
text_level_prefix EventKind.info = "info:  "
text_level_prefix EventKind.warning = "warn:  "
text_level_prefix EventKind.error = "error: "

abbrev pub text_done_prefix : String
text_done_prefix = "done:  "

level_color : EventKind → String
level_color EventKind.debug = "\u{1b}[90m"
level_color EventKind.info = "\u{1b}[32m"
level_color EventKind.warning = "\u{1b}[33m"
level_color EventKind.error = "\u{1b}[31m"

unfoldable pub console_level_prefix : EventKind → Bool → String
unfolding text_level_prefix level_color
console_level_prefix kind color =
    if color
    then level_color kind ++ (text_level_prefix kind ++ "\u{1b}[0m")
    else text_level_prefix kind

unfoldable pub console_done_prefix : Bool → String
console_done_prefix color =
    if color then "\u{1b}[36m" ++ (text_done_prefix ++ "\u{1b}[0m") else text_done_prefix

unfoldable pub scope_label : Scope → String
unfolding number_text
scope_label s = elim s.name [
  | some name ↦ name ++ ("#" ++ number_text s.id)
  | none ↦ "#" ++ number_text s.id
]

unfoldable pub scope_exit_label : Scope → Outcome → String
unfolding scope_label exit_message_for
scope_exit_label s outcome = elim (exit_message_for s outcome) [
  | none ↦ scope_label s
  | some msg ↦ if same_string msg "" then scope_label s else scope_label s ++ (" " ++ msg)
]

-- `pairs.sort_by(|(a, _), (b, _)| a.cmp(b))`: the stable sort of the standard library, by the keys.
unfoldable pub comes_after : String × Value → String × Value → Bool
comes_after (a, _) (b, _) = elim (compare a b) [ Ordering.gt ↦ true | _ ↦ false ]

unfoldable pub place_pair : String × Value → List (String × Value) → List (String × Value)
unfolding comes_after
place_pair p [] = p ∷ []
place_pair p (q ∷ pairs) = if comes_after p q then q ∷ place_pair p pairs else p ∷ (q ∷ pairs)

unfoldable pub sort_pairs : List (String × Value) → List (String × Value)
unfolding place_pair
sort_pairs [] = []
sort_pairs (p ∷ pairs) = place_pair p (sort_pairs pairs)

module _ (float_text : ℕ → String) (quoted : String → String) where
  -- `format_value_text`, with `Value`'s `Display`.
  unfoldable pub format_value_text : Value → String
  unfolding number_text
  format_value_text (Value.string s) = quoted s
  format_value_text (Value.int (Signed.plus n)) = number_text n
  format_value_text (Value.int (Signed.minus n)) = "-" ++ number_text (n + 1)
  format_value_text (Value.uint n) = number_text n
  format_value_text (Value.float bits) = float_text bits
  format_value_text (Value.bool true) = "true"
  format_value_text (Value.bool false) = "false"
  format_value_text (Value.duration_ms ms) = number_text ms ++ "ms"
  format_value_text Value.null = "null"

  pair_text : String × Value → String
  unfolding format_value_text
  pair_text (key, value) = key ++ ("=" ++ format_value_text value)

  -- The pairs after the first.
  more_pairs : List (String × Value) → String
  unfolding pair_text
  more_pairs [] = ""
  more_pairs (p ∷ pairs) = ", " ++ (pair_text p ++ more_pairs pairs)

  pairs_text : List (String × Value) → String
  unfolding more_pairs
  pairs_text [] = ""
  pairs_text (p ∷ pairs) = " {" ++ (pair_text p ++ (more_pairs pairs ++ "}"))

  -- What `append_fields_text` appends, for the pairs in the order of the map.
  unfoldable pub fields_text : Fields → String
  unfolding pairs_text sort_pairs
  fields_text none = ""
  fields_text (some pairs) = pairs_text (sort_pairs pairs)

  event_scope : Bool → Option Scope → String
  unfolding scope_label
  event_scope shown none = ""
  event_scope shown (some s) = if shown then " (" ++ (scope_label s ++ ")") else ""

  exit_label : Option Scope → Outcome → String
  unfolding scope_exit_label outcome_str_lower
  exit_label none outcome = "unknown-scope" ++ (" [" ++ (outcome_str_lower outcome ++ "]"))
  exit_label (some s) outcome =
      scope_exit_label s outcome ++ (" [" ++ (outcome_str_lower outcome ++ "]"))

  duration_suffix : ℕ → String
  unfolding format_duration_ns
  duration_suffix ns = " (" ++ (format_duration_ns ns ++ ")")

  module _ (timestamp : ℕ → String) where
    stamp : Bool → ℕ → String
    stamp shown time_ns = if shown then "[" ++ (timestamp time_ns ++ "] ") else ""

    -- `render_console`.
    unfoldable pub render_console : Record → Option Scope → ConsoleStyle → String
    unfolding stamp console_level_prefix console_done_prefix fields_text event_scope exit_label
        duration_suffix
    render_console r s style = elim r.kind [
      | RecordKind.event kind name fields ↦
          stamp style.show_timestamp r.time_ns
          ++ (console_level_prefix kind style.color
              ++ (name ++ (fields_text fields ++ event_scope style.show_scope s)))
      | RecordKind.scope_exit outcome duration ↦
          if style.show_scope_exit
          then stamp style.show_timestamp r.time_ns
            ++ (console_done_prefix style.color
                ++ (exit_label s outcome
                    ++ (if style.show_duration then duration_suffix duration else "")))
          else ""
    ]

    -- `render_file`, for a text file.
    unfoldable pub render_text : Record → Option Scope → FileStyle → String
    unfolding stamp text_level_prefix fields_text event_scope exit_label duration_suffix
    render_text r s style = elim r.kind [
      | RecordKind.event kind name fields ↦
          stamp style.show_timestamp r.time_ns
          ++ (text_level_prefix kind
              ++ (name ++ (fields_text fields ++ event_scope style.show_scope s)))
      | RecordKind.scope_exit outcome duration ↦
          stamp style.show_timestamp r.time_ns
          ++ (text_done_prefix ++ (exit_label s outcome ++ duration_suffix duration))
    ]
