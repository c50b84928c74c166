-- ===== src/Marathon/Items/Rows.antt =====
-- The order of the list: the fetched applications stand in reverse, the added ones in their order.
use base_service.Base.{
  ◌≡◌, refl, sym, ap, subst, ◌∙◌, ◌||◌, Bool, true, false, List, [], ◌∷◌, ◌++◌, map, arith,
}
use mathlib.Core.List.{append_assoc, append-nil, reverse, reverse_aux}
use base_service.Text.{Text}
use base_service.Marathon.App.{Item}
use base_service.Marathon.Items.{
  Model, Row, entry, add_row, Slide, slow, fast, ItemsView, Event, fetched, added, adding,
  selecting, selected_changed, slid, initial, render, before, with_cid, item_html, prepend,
  render_all, append, handle, handle_all, slide_end, details, add_new, select,
}

-- The applications are fetched once.
abbrev pub NoFetch : List Event → Type 0
NoFetch [] = Unit
NoFetch (fetched ms ∷ es) = ⊥
NoFetch (_ ∷ es) = NoFetch es

-- The models that are added, with the identifiers that they take.
abbrev pub added_of : List Event → List Model
added_of [] = []
added_of (added m ∷ es) = with_cid m ∷ added_of es
added_of (_ ∷ es) = added_of es

-- Whether the add button is clicked, or the list hears of a selection.
abbrev pub opens : List Event → Bool
opens [] = false
opens (adding ∷ es) = true
opens (selected_changed ∷ es) = true
opens (_ ∷ es) = opens es

module _ (value : Item → Text → Text) where
  abbrev pub entry_of : Model → Row
  entry_of m = entry m (item_html value m)

  -- The entries of the models, and then the add button; no error was thrown.
  abbrev IsList : ItemsView → List Model → Type 0
  IsList v ms = (v.rows ≡ map entry_of ms ++ add_row 0 ∷ []) × (v.adds ≡ 1) × (v.thrown ≡ 0)

  before-entries :
      (m : Model) (ms : List Model)
      → before (entry_of m) 0 (map entry_of ms ++ add_row 0 ∷ [])
        ≡ map entry_of (ms ++ m ∷ []) ++ add_row 0 ∷ []
  unfolding before
  before-entries m [] = refl
  before-entries m (n ∷ ms) = ap (entry_of n ∷◌) (before-entries m ms)

  -- The details stay open or closed.
  abbrev IsAlike : ItemsView → ItemsView → List Model → Type 0
  IsAlike w v ms = IsList w ms × (w.details_open ≡ v.details_open)

  slide_end-IsAlike :
      (ss : List Slide) (v : ItemsView) (ms : List Model)
      → IsList v ms
      → IsAlike (slide_end ss v) v ms
  slide_end-IsAlike [] v ms h = (h, refl)
  slide_end-IsAlike (slow ∷ ss) v ms h = (h, refl)
  slide_end-IsAlike (fast ∷ ss) v ms h = (h, refl)

  append-IsAlike :
      (m : Model) (v : ItemsView) (ms : List Model)
      → IsList v ms
      → IsAlike (append value m v) v (ms ++ with_cid m ∷ [])
  unfolding append
  append-IsAlike m v ms (r, a, t) =
      rw a
        ((ap (before (entry_of (with_cid m)) 0) r ∙ before-entries (with_cid m) ms, refl, t), refl)

  render_all-IsAlike :
      (ms acc : List Model) (v : ItemsView)
      → IsList v acc
      → IsAlike (render_all value ms v) v (reverse_aux ms acc)
  unfolding render_all
  render_all-IsAlike [] acc v h = (h, refl)
  render_all-IsAlike (m ∷ ms) acc v (r, a, t) =
      render_all-IsAlike ms (m ∷ acc) (prepend value m v) (ap (entry_of m ∷◌) r, a, t)

  handle_all-IsList :
      (es : List Event) (v : ItemsView) (ms : List Model)
      → NoFetch es
      → IsList v ms
      → IsList (handle_all value es v) (ms ++ added_of es)
        × ((handle_all value es v).details_open ≡ (v.details_open || opens es))
  unfolding handle handle_all
  handle_all-IsList [] v ms n h = (subst (IsList v) (sym (append-nil ms)) h, ground arith)
  handle_all-IsList (fetched ns ∷ es) v ms n h = absurd n
  handle_all-IsList (added m ∷ es) v ms n h =
      let (g, d) = append-IsAlike m v ms h in
      let (l, o) = handle_all-IsList es (append value m v) (ms ++ with_cid m ∷ []) n g in
      (
        subst (IsList (handle_all value es (append value m v)))
            (append_assoc ms (with_cid m ∷ []) (added_of es)) l,
        o ∙ ap (λ b. b || opens es) d,
      )
  handle_all-IsList (adding ∷ es) v ms n h =
      let (l, o) = handle_all-IsList es (add_new v) ms n h in (l, o ∙ ground arith)
  handle_all-IsList (selecting m ∷ es) v ms n h = handle_all-IsList es (select m v) ms n h
  handle_all-IsList (selected_changed ∷ es) v ms n h =
      let (l, o) = handle_all-IsList es (details v) ms n h in (l, o ∙ ground arith)
  handle_all-IsList (slid ∷ es) v ms n h =
      let (g, d) = slide_end-IsAlike v.sliding v ms h in
      let (l, o) = handle_all-IsList es (slide_end v.sliding v) ms n g in
      (l, o ∙ ap (λ b. b || opens es) d)

  -- After a render of an empty list, one fetch and any events but another, the list has the fetched
  -- applications, the last one first, then the added ones in their order, each under the identifier
  -- of its model, and then the add button; no handler threw an error. The details are open exactly
  -- if the add button was clicked or the list heard of a selection.
  pub handle_all-rows :
      (ms : List Model) (es : List Event)
      → NoFetch es
      → let v = handle_all value (fetched ms ∷ es) (render initial) in
        (v.rows ≡ map entry_of (reverse ms ++ added_of es) ++ add_row 0 ∷ [])
        × (v.thrown ≡ 0)
        × (v.details_open ≡ opens es)
  unfolding render handle handle_all
  handle_all-rows ms es n =
      let w = record (render initial) { collection = ms } in
      let (g, d) = render_all-IsAlike ms [] w (refl, refl, refl) in
      let ((r, _, t), o) = handle_all-IsList es (render_all value ms w) (reverse ms) n g in
      (r, t, o ∙ ap (λ b. b || opens es) d)
