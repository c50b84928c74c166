-- ===== src/Marathon/App.antt =====
-- `Item` and `AppItemView` of smc-base-server/src/main/webapp/marathon/js/marathon.js: an application
-- and its entry on the home page. Backbone, the product of attributes and the writing of JSON are
-- parameters; requests are recorded in the order in which they are made.
pub mod Requests
mod Examples
use base_service.Base.{
  ℕ, ◌+◌, Bool, true, false, not, Option, none, some, List, [], ◌∷◌, ◌++◌, length, if◌then◌else◌,
}
use base_service.Text.{join, Text, codes, is_empty}

-- A number in tenths, or the text that a field or a prompt gave.
pub data Value : Type 0 where
  tenths : ℕ → Value
  text : Text → Value

-- The attributes that the code names.
pub record Item : Type 0 where
  pub id : Text
  pub cmd : Text
  pub mem : Value
  pub cpus : Value
  pub instances : Value
  pub uris : List Text

-- `defaults`, with the identifier that `_.uniqueId` gives.
unfoldable pub defaults : Text → Item
defaults unique_id = record {
  id = unique_id;
  cmd = codes "sleep 10";
  mem = tenths 100;
  cpus = tenths 1;
  instances = tenths 10;
  uris = [];
}

pub data Method : Type 0 where
  create read update patch delete scale : Method

pub record Options : Type 0 where
  pub url : Option Text
  pub content_type : Option Text
  pub data_json : Option Text
  pub attrs : Option Item

abbrev pub no_options : Options
no_options = record { url = none; content_type = none; data_json = none; attrs = none }

-- The arguments of `Backbone.sync`, with the model's attributes at the time.
pub record Call : Type 0 where
  pub method : Method
  pub item : Item
  pub options : Options

-- What the template shows.
pub record Data : Type 0 where
  pub attr : Item
  pub total : Value
  pub joined_uris : Text
  pub uri_count : ℕ

pub record AppView : Type 0 where
  pub item : Item
  pub html : Option Data
  pub class_2 : Text
  pub removed : Bool
  pub calls : List Call
  pub prevented : ℕ

-- The answer to a confirmation, or to the prompt: `none` if it was cancelled.
pub data Event : Type 0 where
  suspending destroying : Bool → Event
  scaling : Option Text → Event

pub record Backbone : Type 0 where
  pub times : Value → Value → Value
  pub stringify : Item → Text
  pub value_changes : Value → Value → Bool  -- whether `set` triggers a change

module _ (b : Backbone) where
  open b use {times, stringify, value_changes}

  abbrev pub body : Item → Option Item → Text
  body m none = stringify m
  body m (some a) = stringify a

  abbrev pub directed : Text → Item → Options → Options
  directed u m o = record o {
    url = some u;
    content_type = some (codes "application/json");
    data_json = some (body m o.attrs);
  }

  pub sync : Method → Item → Options → Call
  sync delete m o = record {
    method = delete;
    item = m;
    options = directed (codes "/v1/apps/stop.do") m o;
  }
  sync scale m o = record {
    method = create;
    item = m;
    options = directed (codes "/v1/apps/scale.do") m o;
  }
  sync k m o = record { method = k; item = m; options = o }

  pub data_of : Item → Data
  data_of m = record {
    attr = m;
    total = times m.cpus m.instances;
    joined_uris = join (codes "<li>") m.uris;
    uri_count = length m.uris;
  }

  pub render : AppView → AppView
  unfolding data_of
  render v = record v { html = some (data_of v.item) }

  -- The constructor: the element has the identifier as its second class, and is drawn by `render`.
  pub initialize : Item → AppView
  initialize m = record {
    item = m;
    html = none;
    class_2 = m.id;
    removed = false;
    calls = [];
    prevented = 0;
  }

  -- `Item.scale`, with the handler of `change:instances`.
  pub scale_item : Value → AppView → AppView
  unfolding sync render
  scale_item n v =
      let w = record v { item = record v.item { instances = n } } in
      let drawn = if value_changes v.item.instances n then render w else w in
      record drawn { calls = sync scale w.item no_options ∷ drawn.calls }

  pub remove : AppView → AppView
  remove v = record v { removed = true }

  -- `this.model.destroy()` of a saved model: it is synced, and the handler of `destroy` is called.
  pub destroy_item : AppView → AppView
  unfolding sync remove
  destroy_item v = remove (record v { calls = sync delete v.item no_options ∷ v.calls })

  abbrev pub prevent_default : AppView → AppView
  prevent_default v = record v { prevented = v.prevented + 1 }

  pub suspend_view : Bool → AppView → AppView
  unfolding scale_item
  suspend_view ok v = prevent_default (if ok then scale_item (tenths 0) v else v)

  pub destroy_view : Bool → AppView → AppView
  unfolding destroy_item
  destroy_view ok v = prevent_default (if ok then destroy_item v else v)

  -- An empty answer is false, as a cancelled one.
  pub scale_view : Option Text → AppView → AppView
  unfolding scale_item
  scale_view none v = prevent_default v
  scale_view (some t) v = prevent_default (if is_empty t then v else scale_item (text t) v)

  pub handle : Event → AppView → AppView
  unfolding suspend_view destroy_view scale_view
  handle (suspending ok) v = suspend_view ok v
  handle (destroying ok) v = destroy_view ok v
  handle (scaling answer) v = scale_view answer v

  pub handle_all : List Event → AppView → AppView
  handle_all [] v = v
  handle_all (e ∷ es) v = handle_all es (handle e v)
