-- ===== src/Marathon/Entries/Examples.antt =====
-- Two fetched applications, of which one is scaled and then destroyed, and one that is created.
use base_service.Base.{◌≡◌, refl, true, false, some, List, [], ◌∷◌}
use base_service.Text.{codes}
use base_service.Marathon.App
use base_service.Marathon.App.{Item, Backbone, defaults}
use base_service.Marathon.App.Requests.{Detects}
use base_service.Marathon.Entries
use base_service.Marathon.Entries.{Event, created, clicked, empty, reset, handle_all}
use base_service.Marathon.Entries.Current.{IsPage, handle_all-reset-IsPage}

-- It triggers a change each time, and writes the identifier alone.
abbrev plain : Backbone
plain = record { times = λ m n. n; stringify = λ m. m.id; value_changes = λ m n. true }

detects : Detects plain
detects m n e = absurd (cc)

abbrev fetched : List Item
fetched = defaults (codes "rails") ∷ defaults (codes "sinatra") ∷ []

abbrev events : List Event
events =
    clicked 0 (App.scaling (some (codes "7")))
    ∷ created (defaults (codes "web"))
    ∷ clicked 0 (App.destroying true)
    ∷ clicked 0 (App.suspending true)
    ∷ clicked 1 (App.destroying false)
    ∷ []

left : (handle_all plain events (reset plain fetched empty)).shown ≡ 1 ∷ 2 ∷ []
unfolding handle_all reset Entries.handle
left = refl

handle_all-reset-IsPage_example :
    IsPage plain detects (handle_all plain events (reset plain fetched empty))
handle_all-reset-IsPage_example = handle_all-reset-IsPage plain detects fetched events
