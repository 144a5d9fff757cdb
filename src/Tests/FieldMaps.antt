-- ===== src/Tests/FieldMaps.antt =====
-- Concrete fields (src/journal/fields.rs).
use eventline.Prelude.{◌≡◌, refl, String, some, none, List, [], ◌∷◌, if◌then◌else◌}
use eventline.Core.{Value}
use eventline.Core.FieldMap.{same_key, insert, get, from_iter, from_unsigned, from_text}
use eventline.Core.FieldMap.Latest.{latest, get-latest}

-- The key of the attempts stands twice.
abbrev pairs : List (String × Value)
pairs = ("attempt", from_unsigned 1) ∷ ("host", from_text "a") ∷ ("attempt", from_unsigned 2) ∷ []

get-latest_example :
    (get "attempt" (from_iter pairs) ≡ latest "attempt" pairs none)
    × (get "attempt" (insert "host" (from_text "b") (from_iter pairs)) ≡ (
        if same_key "host" "attempt"
        then some (from_text "b")
        else get "attempt" (from_iter pairs)))
get-latest_example = get-latest pairs "host" (from_text "b") "attempt"

second_attempt : get "attempt" (from_iter pairs) ≡ some (from_unsigned 2)
unfolding get from_iter
second_attempt = refl
