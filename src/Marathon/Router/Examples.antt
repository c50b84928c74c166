-- ===== src/Marathon/Router/Examples.antt =====
-- Two applications are fetched, a third is saved twice, and the filter is typed into.
use base_service.Base.{◌≡◌, true, if◌then◌else◌, Option, none, some, List, [], ◌∷◌}
use base_service.Text.{Text, codes, ◌==ₜ◌}
use base_service.Marathon.Lightbox.{Backbone}
use base_service.Marathon.App.{Item, defaults}
use base_service.Marathon.Form.{Input, Entry}
use base_service.Marathon.Home
use base_service.Marathon.Home.Session.{saved, joined}
use base_service.Marathon.Filter
use base_service.Marathon.Filter.{LiveFilter}
use base_service.Marathon.Terminal
use base_service.Marathon.Router.{
  Event, homely, terminal_event, changed, due, initialize, fetch_done, handle_all,
}
use base_service.Marathon.Router.Snapshot.{home_events, filtered, snapshot}

abbrev eager : Backbone Item
eager = record {
  flag_changes = λ o p. true;
  content_changes = λ c d. true;
  color_changes = λ c d. true;
}

abbrev made : List Entry → Item
made d = defaults (codes "web rails")

-- Texts in lower case stay.
abbrev lower : Text → Text
lower t = t

-- The model with the identifier.
abbrev by_id : List Item → Option Text → Option Item
by_id ms none = none
by_id [] (some t) = none
by_id (m ∷ ms) (some t) = if m.id ==ₜ t then some m else by_id ms (some t)

abbrev fetched : List Item
fetched = defaults (codes "rails") ∷ defaults (codes "sinatra") ∷ []

abbrev inputs : List Input
inputs = record { name = codes "id"; val = codes "web rails" } ∷ []

abbrev events : List Event
events =
    homely (Home.adding (codes "app_1"))
    ∷ homely (Home.saving inputs)
    ∷ homely (Home.saving inputs)
    ∷ terminal_event Terminal.keydown
    ∷ terminal_event (Terminal.typed (codes "ra"))
    ∷ terminal_event Terminal.keyup
    ∷ due 1
    ∷ changed
    ∷ []

snapshot_example :
    let p = handle_all eager made lower lower by_id events (
      fetch_done eager made lower lower by_id fetched
        (initialize eager made lower lower by_id [])) in
    (p.home.entries ≡ joined eager made by_id fetched (saved (home_events events)))
    × (f : LiveFilter Item) × (p.filter ≡ some f)
    × (f.value ≡ p.terminal.value)
    × (Filter.change lower (by_id fetched) f ≡ filtered eager made lower lower by_id fetched f)
snapshot_example = snapshot eager made lower lower by_id fetched [] events tt
