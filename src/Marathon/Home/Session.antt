-- ===== src/Marathon/Home/Session.antt =====
-- The page after the applications were fetched.
use base_service.Base.{
  ◌≡◌, sym, ap, ◌∙◌, inl, inr, refl, Option, none, some, Option-cases, List, [], ◌∷◌, ◌++◌,
}
use mathlib.Core.List.{append-nil, append_assoc}
use base_service.Text.{Text}
use base_service.Marathon.Lightbox.{Backbone}
use base_service.Marathon.App.{Item}
use base_service.Marathon.Form.{Entry, collect}
use base_service.Marathon.Home.{
  HomeView, Event, adding, saving, lighting, add, render, reset, start, add_new, create, save,
  handle, handle_all,
}

render-append :
    (ms : List Item) (h : HomeView) → render ms h ≡ record h { entries = h.entries ++ ms }
unfolding render add
render-append [] h = ap (λ es. record h { entries = es }) (sym (append-nil h.entries))
render-append (m ∷ ms) h =
    render-append ms (add m h)
    ∙ ap (λ es. record h { entries = es }) (append_assoc h.entries (m ∷ []) ms)

-- The data of the forms that a session saves.
abbrev pub saved : List Event → List (List Entry)
saved [] = []
saved (adding u ∷ es) = saved es
saved (saving inputs ∷ es) = collect inputs [] ∷ saved es
saved (lighting a ∷ es) = saved es

module _ (b : Backbone Item) (made : List Entry → Item)
    (get : List Item → Option Text → Option Item) where
  -- The models, and then in turn one for each saved form, unless a model before it has its
  -- identifier.
  abbrev pub joined : List Item → List (List Entry) → List Item
  joined ms [] = ms
  joined ms (d ∷ ds) = elim (get ms (some (made d).id)) [
    | none ↦ joined (ms ++ made d ∷ []) ds
    | some m ↦ joined ms ds
  ]

  create-joined :
      (d : List Entry) (h : HomeView)
      → h.entries ≡ h.collection
      → let g = create b made get d h in
        (g.entries ≡ g.collection)
        × ((ds : List (List Entry)) → joined g.collection ds ≡ joined h.collection (d ∷ ds))
        × (g.created ≡ h.created ++ d ∷ [])
  unfolding create add
  create-joined d h q = elim (Option-cases (get h.collection (some (made d).id))) [
    | inl e ↦ rw (e, create, add) (ap (λ es. es ++ made d ∷ []) q, λ ds. rw (e, joined) refl, refl)
    | inr (m, e) ↦ rw (e, create) (q, λ ds. rw (e, joined) refl, refl)
  ]

  handle_all-joined :
      (es : List Event) (h : HomeView)
      → h.entries ≡ h.collection
      → let g = handle_all b made get es h in
        (g.collection ≡ joined h.collection (saved es))
        × (g.entries ≡ g.collection)
        × (g.created ≡ h.created ++ saved es)
  unfolding handle_all handle add_new save
  handle_all-joined [] h q = (refl, q, sym (append-nil h.created))
  handle_all-joined (adding u ∷ es) h q = handle_all-joined es (add_new b made get u h) q
  handle_all-joined (saving inputs ∷ es) h q =
      let d = collect inputs [] in
      let (q', j, r) = create-joined d h q in
      let (c, e, r') = handle_all-joined es (save b made get inputs h) q' in
      (
        c ∙ j (saved es),
        e,
        r' ∙ ap (λ ds. ds ++ saved es) r ∙ append_assoc h.created (d ∷ []) (saved es),
      )
  handle_all-joined (lighting a ∷ es) h q =
      handle_all-joined es (handle b made get (lighting a) h) q

  -- After the applications are fetched once and any events of the form and the lightbox follow, the
  -- entries before the add button are the collection's applications: the fetched ones, and then in turn one
  -- for each saved form, unless an application before it has its identifier.
  pub handle_all-reset :
      (ms : List Item) (es : List Event)
      → let h = handle_all b made get es (reset ms (start b made get)) in
        (h.collection ≡ joined ms (saved es)) × (h.entries ≡ h.collection) × (h.created ≡ saved es)
  unfolding reset start render
  handle_all-reset ms es =
      let h = record (start b made get) { collection = ms } in
      let shown = render-append ms h in
      let (c, e, r) =
        handle_all-joined es (render ms h)
          (ap HomeView.entries shown ∙ sym (ap HomeView.collection shown)) in
      (
        c ∙ ap (λ g. joined g.collection (saved es)) shown,
        e,
        r ∙ ap (λ g. g.created ++ saved es) shown,
      )
