-- ===== src/Marathon/Home/Examples.antt =====
-- A page with one application and saved forms.
use base_service.Base.{◌≡◌, refl, true, if◌then◌else◌, Option, none, some, List, [], ◌∷◌}
use base_service.Text.{Text, codes, ◌==ₜ◌}
use base_service.Marathon.Lightbox.{Backbone, locking}
use base_service.Marathon.App.{Item, defaults}
use base_service.Marathon.Form.{Input, Entry}
use base_service.Marathon.Home.{Event, adding, saving, lighting, start, reset, handle, handle_all}

-- A `set` that triggers a change each time.
abbrev eager : Backbone Item
eager = record {
  flag_changes = λ o p. true;
  content_changes = λ c d. true;
  color_changes = λ c d. true;
}

abbrev made : List Entry → Item
made d = defaults (codes "web")

-- The model with the identifier.
abbrev by_id : List Item → Option Text → Option Item
by_id ms none = none
by_id [] (some t) = none
by_id (m ∷ ms) (some t) = if m.id ==ₜ t then some m else by_id ms (some t)

abbrev inputs : List Input
inputs = record { name = codes "id"; val = codes "web" } ∷ []

abbrev events : List Event
events = adding (codes "app_1") ∷ lighting locking ∷ saving inputs ∷ []

abbrev fetched : List Item
fetched = defaults (codes "rails") ∷ []

-- The form's application stands behind the fetched one, and saving the form again adds none.
two_entries :
    (handle_all eager made by_id
      (saving inputs ∷ events)
      (reset fetched (start eager made by_id))).entries
    ≡ defaults (codes "rails") ∷ defaults (codes "web") ∷ []
unfolding handle_all handle reset start defaults
two_entries = refl
