-- ===== src/Marathon/Form.antt =====
-- `FormView.save` of smc-base-server/src/main/webapp/marathon/js/marathon.js: what the form's inputs
-- give, with the list of URIs.
pub mod Uris
pub mod Data
pub mod Order
mod Examples
use base_service.Base.{ℕ, Bool, true, false, not, List, [], ◌∷◌, ◌==◌, if◌then◌else◌, map}
use base_service.Dictionary
use base_service.Text.{split, Text, codes, ◌==ₜ◌, is_empty}

-- `s.replace(/ /g, '')`.
abbrev pub strip_spaces : Text → Text
strip_spaces [] = []
strip_spaces (a ∷ s) = if a == b' ' then strip_spaces s else a ∷ strip_spaces s

-- `_.reject` of the empty texts.
abbrev pub reject_empty : List Text → List Text
reject_empty [] = []
reject_empty (w ∷ ws) = if is_empty w then reject_empty ws else w ∷ reject_empty ws

pub parse_uris : Text → List Text
parse_uris val = reject_empty (map strip_spaces (split b',' val))

pub data FieldValue : Type 0 where
  one : Text → FieldValue
  many : List Text → FieldValue

pub record Input : Type 0 where
  pub name : Text
  pub val : Text

-- `data`.
abbrev pub Entry : Type 0
Entry = Dictionary.Entry FieldValue

pub field_value : Input → FieldValue
unfolding parse_uris
field_value el = if el.name ==ₜ codes "uris" then many (parse_uris el.val) else one el.val

-- The rounds of `$inputs.each`.
pub collect : List Input → List Entry → List Entry
unfolding field_value
collect [] d = d
collect (el ∷ els) d = collect els (Dictionary.put el.name (field_value el) d)
