-- ===== src/Marathon/Template.antt =====
-- The templates of smc-base-server/src/main/webapp/marathon/js/marathon.js: the interpolation that
-- `_.templateSettings` sets, and the texts of `ItemView` and `AppItemView`. What an expression between
-- the braces gives is a parameter: Underscore evaluates it over the view's data.
pub mod Pieces
mod Examples
use base_service.Base.{
  ℕ, zero, suc, ◌+◌, Bool, true, false, Option, none, some, List, [], ◌∷◌, ◌++◌, drop, length,
  if◌then◌else◌,
}
use base_service.Text.{Text, codes, starts_with}
use base_service.Browser.{contains}

-- A code unit that stays, or an expression between braces.
pub data Piece : Type 0 where
  literal : ℕ → Piece
  hole : Text → Piece

-- What `.` does not match: line feed, carriage return, and the two separators of Unicode.
abbrev pub line_ends : List ℕ
line_ends = 10 ∷ 13 ∷ 8232 ∷ 8233 ∷ []

-- `(.+?)\}\}`: the least text of at least one character before two braces, on one line.
abbrev pub lazily : Text → Option Text
lazily [] = none
lazily (c ∷ s) =
    let rest = lazily s in
    if contains line_ends c
    then none
    else if starts_with s (codes "}}")
    then some (c ∷ [])
    else elim rest [ none ↦ none | some g ↦ some (c ∷ g) ]

-- The match of `interpolate` at the beginning of a text.
abbrev pub interpolate : Text → Option Text
interpolate t = if starts_with t (codes "{{") then lazily (drop 2 t) else none

-- The pieces of a text behind its first code units.
unfoldable pub pieces : ℕ → Text → List Piece
pieces n [] = []
pieces (suc n) (c ∷ s) = pieces n s
pieces zero (c ∷ s) = elim (interpolate (c ∷ s)) [
  | none ↦ literal c ∷ pieces zero s
  | some g ↦ hole g ∷ pieces (length g + 3) s
]

-- `_.template(text)` of a function that gives the value of each expression.
unfoldable pub fill : (Text → Text) → List Piece → Text
fill value [] = []
fill value (literal c ∷ ps) = c ∷ fill value ps
fill value (hole g ∷ ps) = value g ++ fill value ps

abbrev pub item_text : Text
item_text = codes "{{ id }}"

abbrev pub app_text : Text
app_text =
    codes "<div class='app-item '>"
    ++ codes "<div class='info-wrapper val'>"
    ++ codes "<h1>{{ id }}</h1>"
    ++ codes "CMD: <span class='val'>{{ cmd }}</span><br/>"
    ++ codes "<div class='uri-wrapper'>URIs: <span class='val'>{{ uriCount }}</span>"
    ++ codes "<ul class='uris'>{{uris}}</ul>"
    ++ codes "</div>"
    ++ codes "Memory: <span class='val'>{{ mem }}</span><br/>"
    ++ codes "CPU: <span class='val'>{{ cpus }}<br/></span>"
    ++ codes "Instances: <span class='val'>{{ instances }}</span><br/>"
    ++ codes "</div>"
    ++ codes "<div class='action-bar val'>"
    ++ codes "<a class='scale val' href='#'>SCALE</a>  | "
    ++ codes "<a class='suspend val' href='#'>SUSPEND</a>  | "
    ++ codes "<a class='destroy val' href='#'>DESTROY</a>"
    ++ codes "</div>"
    ++ codes "</div>"
