-- ===== src/Marathon/Lightbox.antt =====
-- `LightboxModel` and `Backpack.Lightbox` of smc-base-server/src/main/webapp/marathon/js/marathon.js.
-- Backbone is a parameter: whether `set` of a value over another triggers the change event.
pub mod Synced
pub mod Closing
mod Examples
use Prim.Native.String.{String}
use base_service.Base.{ℕ, ◌+◌, Bool, true, false, Option, none, some, List, [], ◌∷◌, if◌then◌else◌}

pub record Backbone (C : Type 0) : Type 0 where
  pub flag_changes : Bool → Bool → Bool
  pub content_changes : Option C → Option C → Bool
  pub color_changes : String → String → Bool

-- `lock` of the source is the field `locked`, since the method has its name.
pub record LightboxModel (C : Type 0) : Type 0 where
  pub opened : Bool
  pub locked : Bool
  pub background_color : String
  pub content_view : Option C

-- `shown` is the visibility of `$el`, `drawn` what `.lb-content` holds, `css` the colour set on
-- `$el`, and `closes` counts the triggers of `close`.
pub record Lightbox (C : Type 0) : Type 0 where
  pub model : LightboxModel C
  pub shown : Bool
  pub rendered : Bool
  pub drawn : Option C
  pub css : Option String
  pub closes : ℕ

-- What a click hits on its way out to `$el`: the content, an element that closes, or another one.
pub data Spot : Type 0 where
  content_spot closer plain_spot : Spot

-- What the page does with a lightbox.
pub data Action (C : Type 0) : Type 0 where
  opening closing dismissal locking unlocking : Action C
  filling : C → Action C
  coloring : String → Action C
  clicking : List Spot → Action C

module _ {C : Type 0} where
  abbrev pub defaults : LightboxModel C
  defaults = record {
    opened = false;
    locked = false;
    background_color = "rgba(0,0,0,0.9)";
    content_view = none;
  }

  -- `$el` is made visible, and without content or colour.
  abbrev pub fresh : Lightbox C
  fresh = record {
    model = defaults;
    shown = true;
    rendered = false;
    drawn = none;
    css = none;
    closes = 0;
  }

  pub toggle : Lightbox C → Lightbox C
  toggle v = record v { shown = v.model.opened }

  -- `this.$el.find('.lb-content')` finds nothing before the template is rendered.
  pub update_content : Lightbox C → Lightbox C
  update_content v = if v.rendered then record v { drawn = v.model.content_view } else v

  pub update_color : Lightbox C → Lightbox C
  update_color v = record v { css = some v.model.background_color }

  pub render : Lightbox C → Lightbox C
  render v = record v { rendered = true; drawn = none }

  pub append : Lightbox C → Lightbox C
  unfolding render
  append v = render v

  module _ (b : Backbone C) where
    open b use {flag_changes, content_changes, color_changes}

    -- `this.set('open', o)`, with the handler of `change:open`.
    pub set_open : Bool → Lightbox C → Lightbox C
    unfolding toggle
    set_open o v =
        let w = record v { model = record v.model { opened = o } } in
        if flag_changes v.model.opened o then toggle w else w

    pub set_content : C → Lightbox C → Lightbox C
    unfolding update_content
    set_content c v =
        let w = record v { model = record v.model { content_view = some c } } in
        if content_changes v.model.content_view (some c) then update_content w else w

    pub color : String → Lightbox C → Lightbox C
    unfolding update_color
    color c v =
        let w = record v { model = record v.model { background_color = c } } in
        if color_changes v.model.background_color c then update_color w else w

    pub open_box : Lightbox C → Lightbox C
    unfolding set_open
    open_box v = set_open true v

    pub close : Lightbox C → Lightbox C
    unfolding set_open
    close v = set_open false (record v { closes = v.closes + 1 })

    pub dismiss : Lightbox C → Lightbox C
    unfolding close
    dismiss v = if v.model.locked then v else close v

    pub lock : Lightbox C → Lightbox C
    lock v = record v { model = record v.model { locked = true } }

    pub unlock : Lightbox C → Lightbox C
    unlock v = record v { model = record v.model { locked = false } }

    -- `bindings` come first, so every change from here on is handled.
    pub initialize : Option C → Lightbox C
    unfolding toggle append set_content
    initialize none = append (toggle fresh)
    initialize (some c) = set_content c (append (toggle fresh))

    -- The handlers from the inside out: `noop` on the content stops the event, and an event that
    -- reaches `$el` dismisses.
    pub click : List Spot → Lightbox C → Lightbox C
    unfolding close dismiss
    click [] v = dismiss v
    click (content_spot ∷ _) v = v
    click (closer ∷ path) v = click path (close v)
    click (plain_spot ∷ path) v = click path v

    pub perform : Action C → Lightbox C → Lightbox C
    unfolding open_box close dismiss lock unlock set_content color click
    perform opening v = open_box v
    perform closing v = close v
    perform dismissal v = dismiss v
    perform locking v = lock v
    perform unlocking v = unlock v
    perform (filling c) v = set_content c v
    perform (coloring c) v = color c v
    perform (clicking path) v = click path v

    pub perform_all : List (Action C) → Lightbox C → Lightbox C
    perform_all [] v = v
    perform_all (a ∷ acts) v = perform_all acts (perform a v)
