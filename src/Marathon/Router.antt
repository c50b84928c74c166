-- ===== src/Marathon/Router.antt =====
-- `Router` of smc-base-server/src/main/webapp/marathon/js/marathon.js: the home page, the terminal and
-- the filter together. Once the applications are fetched, the filter is made over the entries that
-- the page has then, and over a copy of the collection. The clicks on an entry are those of
-- Marathon.Entries, and are left out here.
pub mod Snapshot
mod Examples
use base_service.Base.{
  ℕ, Bool, true, false, ◌||◌, Option, none, some, List, [], ◌∷◌, ◌++◌, map, if◌then◌else◌,
}
use base_service.Text.{Text, ◌==ₜ◌, codes, is_empty, split}
use base_service.Browser.{contains}
use base_service.Marathon.Lightbox.{Backbone}
use base_service.Marathon.App.{Item}
use base_service.Marathon.Form.{Entry}
use base_service.Marathon.Home
use base_service.Marathon.Home.{HomeView}
use base_service.Marathon.Filter
use base_service.Marathon.Filter.{AppElement, LiveFilter}
use base_service.Marathon.Terminal
use base_service.Marathon.Terminal.{Terminal}

-- `all` and the filter are undefined before the answer to the fetch.
pub record Page : Type 0 where
  pub home : HomeView
  pub all : Option (List Item)
  pub filter : Option (LiveFilter Item)
  pub terminal : Terminal

-- `fetched` carries the models that the collection has after its reset.
pub data Event : Type 0 where
  fetched : List Item → Event
  homely : Home.Event → Event
  terminal_event : Terminal.Event → Event
  changed : Event
  due : ℕ → Event

-- What separates the classes in an identifier.
abbrev pub white_space : List ℕ
white_space = 9 ∷ 10 ∷ 11 ∷ 12 ∷ 13 ∷ 32 ∷ 160 ∷ 65279 ∷ []

abbrev pub blank : ℕ → ℕ
blank c = if contains white_space c then b' ' else c

-- The first word that is a class of its own.
abbrev pub first_class : List Text → Option Text
first_class [] = none
first_class (w ∷ ws) =
    let rest = first_class ws in if is_empty w || w ==ₜ codes "app-list-item" then rest else some w

-- The class behind `app-list-item`, which `addClass` of the identifier adds.
abbrev pub class_1_of : Text → Option Text
class_1_of id = first_class (split b' ' (map blank id))

abbrev pub models : Option (List Item) → List Item
models none = []
models (some ms) = ms

-- The element of an application, which sets no `display` of its own. `content` gives the text that a
-- heading shows of an identifier written into it.
abbrev pub element_of : (Text → Text) → Item → AppElement
element_of content m = record { heading = content m.id; class_1 = class_1_of m.id; display = [] }

-- The events of the input that the filter handles too, after the terminal.
abbrev pub filter_of : Terminal.Event → Option Filter.Event
filter_of Terminal.keydown = some Filter.keydown
filter_of (Terminal.typed v) = some (Filter.typed v)
filter_of _ = none

-- `get` is the collection's `get` over its models.
module _ (b : Backbone Item) (made : List Entry → Item) (lower content : Text → Text)
    (get : List Item → Option Text → Option Item) where
  pub initialize : Text → Page
  initialize v = record {
    home = Home.start b made get;
    all = none;
    filter = none;
    terminal = Terminal.initial v;
  }

  -- The collection's reset, and then the function given to `done`.
  pub fetch_done : List Item → Page → Page
  fetch_done ms p =
      let home = Home.reset ms p.home in
      record {
        home = home;
        all = some ms;
        filter =
            some (
              Filter.start lower (get ms) (map (element_of content) home.entries) p.terminal.value);
        terminal = Terminal.handle Terminal.bound p.terminal;
      }

  -- An event of the input for the filter, if it was made.
  abbrev pub filter_event : Filter.Event → Page → Page
  filter_event e p = elim p.filter [
    | none ↦ p
    | some f ↦ record p { filter = some (Filter.handle lower (get (models p.all)) e f) }
  ]

  abbrev pub terminal_step : Terminal.Event → Page → Page
  terminal_step e p = record p { terminal = Terminal.handle e p.terminal }

  pub handle : Event → Page → Page
  unfolding fetch_done
  handle (fetched ms) p = fetch_done ms p
  handle (homely e) p = record p { home = Home.handle b made get e p.home }
  handle (terminal_event e) p = elim (filter_of e) [
    | none ↦ terminal_step e p
    | some k ↦ filter_event k (terminal_step e p)
  ]
  handle changed p = filter_event Filter.changed p
  handle (due k) p = filter_event (Filter.due k) p

  pub handle_all : List Event → Page → Page
  handle_all [] p = p
  handle_all (e ∷ es) p = handle_all es (handle e p)
