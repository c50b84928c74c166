-- ===== src/Marathon/Filter/Examples.antt =====
-- A page of three items, and the theorems about it.
use base_service.Base.{◌≡◌, refl, Option, some, List, [], ◌∷◌, map, length}
use base_service.Text.{Text, codes}
use base_service.Marathon.Filter.{
  AppElement, LiveFilter, Event, keydown, typed, due, start, change, handle, handle_all,
}
use base_service.Marathon.Filter.Rounds.{shown_as, found}
use base_service.Marathon.Filter.History.{change-handle_all}
use base_service.Marathon.Filter.Settled.{stroke, stroke-handle_all}

-- Texts in lower case stay.
abbrev lower : Text → Text
lower t = t

abbrev get : Option Text → Option Text
get c = c

abbrev app : Text → AppElement
app t = record { heading = t; class_1 = some t; display = codes "list-item" }

abbrev page : List AppElement
page = app (codes "rails") ∷ app (codes "sinatra") ∷ app (codes "resque") ∷ []

abbrev keys : List Event
keys = keydown ∷ typed (codes "r") ∷ keydown ∷ typed (codes "ra") ∷ due 1 ∷ due 2 ∷ keydown ∷ []

keys_results :
    (handle_all lower get keys (start lower get page [])).results
    ≡ some (some (codes "rails") ∷ some (codes "sinatra") ∷ [])
unfolding handle_all handle start
keys_results = refl

abbrev typing : LiveFilter Text
typing = start lower get page (codes "ra")

change-handle_all_example :
    let s = handle_all lower get keys (start lower get page []) in
    change lower get s ≡ record s {
      lis = map (shown_as lower get (lower s.value) (codes "list-item")) page;
      num_shown = length (found lower get (lower s.value) page);
      results = some (found lower get (lower s.value) page);
    }
change-handle_all_example = change-handle_all lower get page [] keys (refl, (refl, (refl, tt)))

stroke-handle_all_example :
    let s = handle_all lower get keys (start lower get page []) in
    let t = handle_all lower get (stroke lower get (codes "es") s) s in
    (t.lis ≡ map (shown_as lower get (codes "es") (codes "list-item")) page)
    × (t.num_shown ≡ length (found lower get (codes "es") page))
    × (t.results ≡ some (found lower get (codes "es") page))
    × (t.timeouts.live ≡ [])
stroke-handle_all_example =
    stroke-handle_all lower get page [] keys (codes "es") (refl, (refl, (refl, tt)))
