-- ===== src/Marathon/Items.antt =====
-- `Items`, `ItemView` and `ItemsView` of smc-base-server/src/main/webapp/marathon/js/marathon.js: a list
-- of applications by their identifiers, before an add button. What a template's expression gives
-- over an application is a parameter. The animations of the list end in their order.
pub mod Rows
mod Examples
use base_service.Base.{
  ℕ, zero, suc, ◌+◌, ◌==◌, Bool, true, false, Option, none, some, List, [], ◌∷◌, ◌++◌,
  if◌then◌else◌,
}
use base_service.Text.{Text, codes}
use base_service.Marathon.App.{Item}
use base_service.Marathon.Template.{pieces, fill, item_text}

pub record Model : Type 0 where
  pub cid : Text
  pub item : Item

-- An element of the list: a view's element with its content, or the add button of a `render`.
pub data Row : Type 0 where
  entry : Model → Text → Row
  add_row : ℕ → Row

-- An animation of the list, with the function it calls at its end: of `addNew`, or of `details`.
pub data Slide : Type 0 where
  slow fast : Slide

-- `adds` counts the add buttons, of which `$add` is the last. `selected` holds the models whose
-- attribute is set, and `thrown` counts the errors that left a handler.
pub record ItemsView : Type 0 where
  pub collection : List Model
  pub rows : List Row
  pub adds : ℕ
  pub selected : List Text
  pub html : Option Text
  pub details_open : Bool
  pub sliding : List Slide
  pub prompt_text : Text
  pub prompt_open : Bool
  pub prompt_shown : Bool
  pub caret_shown : Bool
  pub thrown : ℕ

pub data Event : Type 0 where
  fetched : List Model → Event
  added : Model → Event
  adding : Event
  selecting : Model → Event
  selected_changed : Event
  slid : Event

-- `initialize`, with an element that is empty.
abbrev pub initial : ItemsView
initial = record {
  collection = [];
  rows = [];
  adds = 0;
  selected = [];
  html = none;
  details_open = false;
  sliding = [];
  prompt_text = [];
  prompt_open = false;
  prompt_shown = false;
  caret_shown = true;
  thrown = 0;
}

unfoldable pub render : ItemsView → ItemsView
render v = record v { rows = v.rows ++ add_row v.adds ∷ []; adds = v.adds + 1 }

-- `before` of an add button.
unfoldable pub before : Row → ℕ → List Row → List Row
before r k [] = []
before r k (entry m t ∷ rs) = entry m t ∷ before r k rs
before r k (add_row j ∷ rs) =
    let rest = before r k rs in if j == k then r ∷ add_row j ∷ rs else add_row j ∷ rest

abbrev pub add_new : ItemsView → ItemsView
add_new v = record v { details_open = true; sliding = v.sliding ++ slow ∷ [] }

abbrev pub details : ItemsView → ItemsView
details v = record v { details_open = true; sliding = v.sliding ++ fast ∷ [] }

-- The function given to `slideUp`, at the end of the first animation.
abbrev pub slide_end : List Slide → ItemsView → ItemsView
slide_end [] v = v
slide_end (slow ∷ ss) v = record v {
  sliding = ss;
  prompt_text = codes "New";
  prompt_open = true;
  caret_shown = false;
}
slide_end (fast ∷ ss) v = record v {
  sliding = ss;
  prompt_text = codes "New";
  prompt_shown = true;
  caret_shown = false;
}

-- `this.model.set('selected', true)`: Backbone tells the model's listeners, and the list has none.
abbrev pub select : Model → ItemsView → ItemsView
select m v = record v { selected = m.cid ∷ v.selected }

-- `model.set('id', model.cid)`
abbrev pub with_cid : Model → Model
with_cid m = record m { item = record m.item { id = m.cid } }

module _ (value : Item → Text → Text) where
  -- `ItemView.render`, whose `html` is not declared: it is a variable of the window.
  abbrev pub item_html : Model → Text
  item_html m = fill (value m.item) (pieces 0 item_text)

  abbrev pub prepend : Model → ItemsView → ItemsView
  prepend m v = record v { rows = entry m (item_html m) ∷ v.rows; html = some (item_html m) }

  unfoldable pub render_all : List Model → ItemsView → ItemsView
  render_all [] v = v
  render_all (m ∷ ms) v = render_all ms (prepend m v)

  -- `$add` is undefined before `render`.
  unfoldable pub append : Model → ItemsView → ItemsView
  append m v =
      let w = with_cid m in
      let k = record v { collection = v.collection ++ w ∷ [] } in
      elim v.adds [
        | zero ↦ record k { thrown = v.thrown + 1 }
        | suc n ↦ record k {
          rows = before (entry w (item_html w)) n v.rows;
          html = some (item_html w);
        }
      ]

  unfoldable pub handle : Event → ItemsView → ItemsView
  unfolding render_all append
  handle (fetched ms) v = render_all ms (record v { collection = ms })
  handle (added m) v = append m v
  handle adding v = add_new v
  handle (selecting m) v = select m v
  handle selected_changed v = details v
  handle slid v = slide_end v.sliding v

  unfoldable pub handle_all : List Event → ItemsView → ItemsView
  handle_all [] v = v
  handle_all (e ∷ es) v = handle_all es (handle e v)
