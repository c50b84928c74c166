-- ===== src/Marathon/Form/Examples.antt =====
-- Inputs of the form, and the theorems about them.
use base_service.Base.{◌≡◌, refl, some, List, [], ◌∷◌, All}
use base_service.Text.{join, Text, codes}
use base_service.Marathon.Form.{Input, one, field_value, parse_uris}
use base_service.Marathon.Form.Uris.{IsUri, parse_uris-join}
use base_service.Marathon.Form.Order.{object_of, value_of, swapped, object_of-Reordered}

parsed : parse_uris (codes " a.tgz,, b .tgz ,") ≡ codes "a.tgz" ∷ codes "b.tgz" ∷ []
unfolding parse_uris
parsed = refl

abbrev uris : List Text
uris = codes "a.tgz" ∷ codes "b.tgz" ∷ []

uris-IsUri : All IsUri uris
uris-IsUri = (
  record { uri_text = refl; uri_comma = refl; uri_space = refl },
  (record { uri_text = refl; uri_comma = refl; uri_space = refl }, tt),
)

parse_uris-join_example : parse_uris (join (codes ",") uris) ≡ uris
parse_uris-join_example = parse_uris-join uris uris-IsUri

abbrev inputs : List Input
inputs =
    record { name = codes "id"; val = codes "web" }
    ∷ record { name = codes "uris"; val = codes "a, b" }
    ∷ record { name = codes "id"; val = codes "web_2" }
    ∷ []

abbrev uris_first : List Input
uris_first =
    record { name = codes "uris"; val = codes "a, b" }
    ∷ record { name = codes "id"; val = codes "web" }
    ∷ record { name = codes "id"; val = codes "web_2" }
    ∷ []

object_of-Reordered_example :
    (object_of uris_first ≡ object_of inputs)
    × (value_of (codes "id") (object_of uris_first) ≡ some (one (codes "web_2")))
unfolding field_value
object_of-Reordered_example = object_of-Reordered inputs uris_first (codes "id") (
    swapped (record { name = codes "id"; val = codes "web" })
      (record { name = codes "uris"; val = codes "a, b" })
      (record { name = codes "id"; val = codes "web_2" } ∷ []) refl)
