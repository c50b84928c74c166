-- ===== src/Marathon/Items/Examples.antt =====
-- Two fetched applications and one that is added, and the theorem about them.
use base_service.Base.{◌≡◌, refl, List, [], ◌∷◌, ◌++◌, map}
use mathlib.Core.List.{reverse}
use base_service.Text.{Text, codes}
use base_service.Marathon.App.{Item, defaults}
use base_service.Marathon.Samples.{sinatra, monorail}
use base_service.Marathon.Template
use base_service.Marathon.Items
use base_service.Marathon.Items.{
  Model, Row, entry, add_row, Event, fetched, added, adding, selecting, slid, initial, render,
  handle_all, with_cid,
}
use base_service.Marathon.Items.Rows.{added_of, opens, entry_of, handle_all-rows}

abbrev id_of : Item → Text → Text
id_of m g = m.id

abbrev ruby : Model
ruby = record { cid = codes "c1"; item = sinatra.item }

abbrev rails : Model
rails = record { cid = codes "c2"; item = monorail.item }

abbrev new_one : Model
new_one = record { cid = codes "c3"; item = defaults (codes "app_1") }

abbrev events : List Event
events = adding ∷ selecting rails ∷ added new_one ∷ slid ∷ []

abbrev shown : List Row
shown = (handle_all id_of (fetched (ruby ∷ rails ∷ []) ∷ events) (render initial)).rows

shown_rows :
    shown
    ≡ entry rails (codes "Monorail")
      ∷ entry ruby (codes "sinatra")
      ∷ entry (with_cid new_one) (codes "c3")
      ∷ add_row 0
      ∷ []
unfolding handle_all Items.handle render Items.before Items.render_all Items.append Template.pieces
    Template.fill
shown_rows = refl

handle_all-rows_example :
    let v = handle_all id_of (fetched (ruby ∷ rails ∷ []) ∷ events) (render initial) in
    (v.rows
      ≡ map (entry_of id_of) (reverse (ruby ∷ rails ∷ []) ++ added_of events) ++ add_row 0 ∷ [])
    × (v.thrown ≡ 0)
    × (v.details_open ≡ opens events)
handle_all-rows_example = handle_all-rows id_of (ruby ∷ rails ∷ []) events tt
