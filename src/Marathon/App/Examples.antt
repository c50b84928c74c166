-- ===== src/Marathon/App/Examples.antt =====
-- An application that is scaled and suspended, and the theorems about it.
use base_service.Base.{◌≡◌, true, false, none, some, List, [], ◌∷◌, length}
use base_service.Text.{codes}
use base_service.Marathon.App.{
  Backbone, Event, suspending, scaling, text, defaults, initialize, render, handle_all,
}
use base_service.Marathon.App.Requests.{handle_all-initialize}

-- It triggers a change each time, and writes the identifier alone.
abbrev plain : Backbone
plain = record { times = λ m n. n; stringify = λ m. m.id; value_changes = λ m n. true }

abbrev events : List Event
events = scaling (some (codes "abc")) ∷ suspending false ∷ scaling none ∷ []

-- The prompt takes any text.
handle_all-initialize_example :
    let v = handle_all plain events (render plain (initialize plain (defaults (codes "app_1")))) in
    (v.item ≡ record (defaults (codes "app_1")) { instances = text (codes "abc") })
    × (length v.calls ≡ 1)
    × (v.prevented ≡ 3)
handle_all-initialize_example = handle_all-initialize plain (defaults (codes "app_1")) events
