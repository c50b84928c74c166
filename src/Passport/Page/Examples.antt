-- ===== src/Passport/Page/Examples.antt =====
-- A page on which the button is clicked twice and Enter is pressed, and the theorem about it.
use base_service.Base.{false, List, [], ◌∷◌}
use base_service.Passport.Card.Examples.{filled}
use base_service.Passport.Page.{LoginPage, form, Event, key_up, button, due}

abbrev page : LoginPage
page = record { card = filled; content = form []; loading = false; timeouts = 0; logins = 0 }

abbrev events : List Event
events = button ∷ key_up 65 ∷ key_up 13 ∷ button ∷ due ∷ []
