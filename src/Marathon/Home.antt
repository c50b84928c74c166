-- ===== src/Marathon/Home.antt =====
-- `HomeView` and the router of smc-base-server/src/main/webapp/marathon/js/marathon.js: the list of
-- entries before the add button, and the form in the lightbox. The model that `collection.create`
-- makes of the form's data, and the collection's `get` over its models, are parameters.
pub mod Session
mod Examples
use base_service.Base.{Bool, true, false, Option, none, some, List, [], ◌∷◌, ◌++◌, if◌then◌else◌}
use base_service.Text.{Text}
use base_service.Marathon.Lightbox.{
  Backbone, Lightbox, Action, initialize, set_content, open_box, close, perform,
}
use base_service.Marathon.App.{Item, defaults}
use base_service.Marathon.Form.{Input, Entry, collect}

-- `collection` holds the models in the order of the collection, `entries` holds the models of the entries, in the order of the page, and `created` the data of
-- each creation.
pub record HomeView : Type 0 where
  pub collection : List Item
  pub entries : List Item
  pub created : List (List Entry)
  pub lightbox : Lightbox Item
  pub id_focused : Bool
  pub form_view : Bool  -- whether `formView` was assigned

pub data Event : Type 0 where
  adding : Text → Event
  saving : List Input → Event
  lighting : Action Item → Event

-- Before the add button, which is the last element.
pub add : Item → HomeView → HomeView
add m h = record h { entries = h.entries ++ m ∷ [] }

pub render : List Item → HomeView → HomeView
unfolding add
render [] h = h
render (m ∷ ms) h = render ms (add m h)

-- `reset` of the collection, which triggers `render`.
pub reset : List Item → HomeView → HomeView
unfolding render
reset ms h = render ms (record h { collection = ms })

pub data Error : Type 0 where
  reference_error type_error : Error

-- `formView` is not declared, and a form's view has no model: `model.isNew` fails. Nothing calls it.
pub dismiss : HomeView → Error
dismiss h = if h.form_view then type_error else reference_error

module _ (b : Backbone Item) (made : List Entry → Item)
    (get : List Item → Option Text → Option Item) where
  -- The router's start, before the applications are fetched: `render` finds no application.
  pub start : HomeView
  unfolding render
  start = render [] (record {
    collection = [];
    entries = [];
    created = [];
    lightbox = initialize b none;
    id_focused = false;
    form_view = false;
  })

  -- With the identifier that the new item takes.
  pub add_new : Text → HomeView → HomeView
  add_new unique_id h = record h {
    lightbox = open_box b (set_content b (defaults unique_id) h.lightbox);
    id_focused = true;
    form_view = true;
  }

  -- `collection.create(data)`: a model whose identifier no model of the collection has joins the
  -- collection, which triggers `add`; another one does not. Either is saved.
  pub create : List Entry → HomeView → HomeView
  unfolding add
  create d h =
      let posted = record h { created = h.created ++ d ∷ [] } in
      elim (get h.collection (some (made d).id)) [
        | none ↦ add (made d) (record posted { collection = h.collection ++ made d ∷ [] })
        | some m ↦ posted
      ]

  pub save : List Input → HomeView → HomeView
  unfolding create
  save inputs h = let c = create (collect inputs []) h in record c { lightbox = close b c.lightbox }

  pub handle : Event → HomeView → HomeView
  unfolding add_new save
  handle (adding u) h = add_new u h
  handle (saving inputs) h = save inputs h
  handle (lighting a) h = record h { lightbox = perform b a h.lightbox }

  unfoldable pub handle_all : List Event → HomeView → HomeView
  handle_all [] h = h
  handle_all (e ∷ es) h = handle_all es (handle e h)
