-- ===== src/Marathon/Form/Data.antt =====
-- The data of the form as a map from names to values.
use base_service.Base.{◌≡◌, refl, ap, ◌∙◌, Option, none, some, List, [], ◌∷◌, if◌then◌else◌}
use base_service.Text.{Text, ◌==ₜ◌}
use base_service.Dictionary.{get, put, or_else, get-put, or_else_if, or_else-none}
use base_service.Marathon.Form.{FieldValue, Input, Entry, field_value, collect}

-- The value of the last input of the name.
abbrev pub last_value : Text → List Input → Option FieldValue
last_value n [] = none
last_value n (el ∷ els) =
    or_else (last_value n els) (if el.name ==ₜ n then some (field_value el) else none)

get-collect_from :
    (n : Text) (els : List Input) (d : List Entry)
    → get n (collect els d) ≡ or_else (last_value n els) (get n d)
unfolding collect
get-collect_from n [] d = refl
get-collect_from n (el ∷ els) d =
    get-collect_from n els (put el.name (field_value el) d)
    ∙ ap (or_else (last_value n els)) (get-put n el.name (field_value el) d)
    ∙ or_else_if (el.name ==ₜ n) (last_value n els) (get n d) (field_value el)

-- Under each name the data hold the value of the last input of that name, and nothing if there is
-- none.
pub get-collect : (n : Text) (els : List Input) → get n (collect els []) ≡ last_value n els
get-collect n els = get-collect_from n els [] ∙ or_else-none (last_value n els)
