-- ===== src/Passport/Start.antt =====
-- `PassportSC.init` of smc-base-server/src/main/webapp/js/tw.new.index.min.0.0.14.js: the elements of
-- the login card. What `getDomain` answers and what the other methods of the base file leave in
-- `postru` are parameters; their calls are recorded in order.
mod Elements
use base_service.Base.{
  ℕ, zero, suc, ◌+◌, Bool, true, false, ◌||◌, Option, none, some, List, [], ◌∷◌, ◌++◌, map,
  get_elem?, if◌then◌else◌,
}
use base_service.Text.{Text, codes, is_empty}

pub data Tag : Type 0 where
  div ul li table tbody tr td : Tag

-- Elements by first child and next sibling; text and attributes are left out.
pub data Nodes : Type 0 where
  nothing : Nodes
  element : Tag → Nodes → Nodes → Nodes

-- Where an element stands: its position among its siblings, behind those of what it stands in.
abbrev pub Place : Type 0
Place = List ℕ

abbrev pub is_ul : Tag → Bool
is_ul ul = true
is_ul _ = false

abbrev pub behind : Place → Place
behind [] = []
behind (i ∷ p) = suc i ∷ p

-- `find("ul")`: the lists among the descendants, in the order of the document.
pub lists_in : Nodes → List Place
lists_in nothing = []
lists_in (element t inside next) =
    (if is_ul t then (0 ∷ []) ∷ [] else [])
    ++ (map (λ p. 0 ∷ p) (lists_in inside) ++ map behind (lists_in next))

-- `childNodes[i]`, with what stands in it.
pub child : ℕ → Nodes → Option Nodes
child i nothing = none
child zero (element t inside next) = some inside
child (suc i) (element t inside next) = child i next

-- The two texts for `innerHTML`.
abbrev pub with_title : Nodes
with_title =
    element div (element ul (element li nothing nothing) (element ul nothing nothing))
      (element div nothing (element div nothing nothing))

abbrev pub without_title : Nodes
without_title =
    element div
      (element table
        (element tbody
          (element tr nothing (
            element tr (element td nothing nothing)
              (element tr (element td nothing nothing) nothing)))
          nothing)
        nothing)
      (element div nothing (element div nothing nothing))

pub data Call : Type 0 where
  get_domain parse_last_domain parse_appid parse_passport_cookie get_bottom_row : Call

-- An element of the card is named by its index among the child nodes, if it is there; `ds_anchor` is
-- the place inside the first of them.
pub record Root : Type 0 where
  pub root_element : Nodes
  pub ds_element : Option ℕ
  pub s_element : Option ℕ
  pub c_element : Option ℕ
  pub ds_anchor : Option Place
  pub domain : Text
  pub postru : Text
  pub calls : List Call

abbrev pub child_index : ℕ → Nodes → Option ℕ
child_index i n = elim (child i n) [ none ↦ none | some inside ↦ some i ]

abbrev pub untitled : Option Text → Bool
untitled none = true
untitled (some t) = is_empty t

-- With the title, `none` for null, the answer of `getDomain`, what `postru` is before the last test,
-- and the page's address.
pub init : Option Text → Text → Text → Text → Root
unfolding lists_in child
init title domain postru href =
    let html = if untitled title then without_title else with_title in
    record {
      root_element = html;
      ds_element = child_index 0 html;
      s_element = child_index 1 html;
      c_element = child_index 2 html;
      ds_anchor = elim (child 0 html) [ none ↦ none | some inside ↦ get_elem? (lists_in inside) 1 ];
      domain = domain;
      postru = if is_empty postru then href else postru;
      calls =
          get_domain ∷ parse_last_domain ∷ parse_appid ∷ parse_passport_cookie ∷ get_bottom_row
          ∷ [];
    }
