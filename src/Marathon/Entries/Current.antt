-- ===== src/Marathon/Entries/Current.antt =====
-- What the page shows: an entry for each application of the collection, as it is.
use base_service.Base.{
  ℕ, ◌+◌, ◌≡◌, ◌≢◌, refl, sym, ap, ◌∙◌, inl, inr, true, false, some, List, [], ◌∷◌, ◌++◌, arith,
  All, length, get_elem?, Bool-cases, if-P, ◌==◌, All-concat, length-append,
}
use mathlib.Core.Option.{some-injective}
use mathlib.Core.List.{append_assoc, append-nil}
use base_service.Browser.{contains, remove}
use base_service.Marathon.App
use base_service.Marathon.App.{Item, AppView, Backbone}
use base_service.Marathon.App.Requests.{
  Detects, IsCurrent, handle-IsCurrent, drawn-IsCurrent, removed-handle, removed-destroying,
}
use base_service.Browser.Contains.{contains-remove}
use base_service.Marathon.Entries.Places.{
  All-imp, All-remove, get_elem?-append_left, get_elem?-append_last, get_elem?-modify,
  get_elem?-modify_ne, get_elem?-append_cases, get_elem?-modify-some, contains-concat,
}
use base_service.Marathon.Entries.{
  Entries, Event, created, clicked, destroys, modify, numbers, empty, add, render, reset, create,
  click, handle, handle_all,
}

module _ (b : Backbone) (d : Detects b) where
  -- The entry with the number is on the page and shows its application as it is.
  abbrev pub Shown : List AppView → ℕ → Type 0
  Shown vs k = (v : AppView) × (get_elem? vs k ≡ some v) × IsCurrent b v × (v.removed ≡ false)

  -- Every entry that was made and not removed is on the page.
  abbrev pub IsWhole : Entries → Type 0
  IsWhole e =
      (k : ℕ) (v : AppView)
      → get_elem? e.views k ≡ some v
      → v.removed ≡ false
      → contains e.shown k ≡ true

  -- The page has the entries of the collection's applications, in order, and no entry is missing.
  pub record IsPage (e : Entries) : Type 0 where
    pub page_same : e.shown ≡ e.collection
    pub page_each : All (Shown e.views) e.shown
    pub page_all : IsWhole e

  append-Shown : (vs ws : List AppView) (k : ℕ) → Shown vs k → Shown (vs ++ ws) k
  append-Shown vs ws k (v, e, c, r) = (v, get_elem?-append_left vs ws k e, c, r)

  add-Shown :
      (m : Item) (e : Entries)
      → All (Shown e.views) e.shown
      → All (Shown (add b m e).views) (add b m e).shown
  unfolding add
  add-Shown m e h =
      let v = App.render b (App.initialize b m) in
      let vs = e.views ++ v ∷ [] in
      let (c, r) = drawn-IsCurrent b m in
      All-concat (Shown vs) e.shown
        (All-imp {P = Shown e.views} {Q = Shown vs} e.shown (append-Shown e.views (v ∷ [])) h)
        (v, get_elem?-append_last e.views v, c, r)

  add-IsWhole : (m : Item) (e : Entries) → IsWhole e → IsWhole (add b m e)
  unfolding add
  add-IsWhole m e h k v q r = elim (get_elem?-append_cases e.views _ k q) [
    | inl p ↦ ground (arith, contains-concat e.shown (length e.views) k, h k v p r)
    | inr p ↦ ground (arith, contains-concat e.shown (length e.views) k, p)
  ]

  render-IsWhole : (ms : List Item) (e : Entries) → IsWhole e → IsWhole (render b ms e)
  unfolding render
  render-IsWhole [] e h = h
  render-IsWhole (m ∷ ms) e h = render-IsWhole ms (add b m e) (add-IsWhole m e h)

  render-Shown :
      (ms : List Item) (e : Entries)
      → All (Shown e.views) e.shown
      → All (Shown (render b ms e).views) (render b ms e).shown
  unfolding render
  render-Shown [] e h = h
  render-Shown (m ∷ ms) e h = render-Shown ms (add b m e) (add-Shown m e h)

  render_fields :
      (ms : List Item) (e : Entries)
      → ((render b ms e).shown ≡ e.shown ++ numbers (length e.views) ms)
        × ((render b ms e).collection ≡ e.collection)
  unfolding render add
  render_fields [] e = (sym (append-nil e.shown), refl)
  render_fields (m ∷ ms) e =
      let v = App.render b (App.initialize b m) in
      let (s, c) = render_fields ms (add b m e) in
      let n : length (e.views ++ v ∷ []) ≡ length e.views + 1 = length-append e.views (v ∷ []) in
      (
        s
            ∙ ap (λ k. (e.shown ++ length e.views ∷ []) ++ numbers k ms) n
            ∙ append_assoc e.shown (length e.views ∷ []) (numbers (length e.views + 1) ms),
        c,
      )

  reset-IsPage : (ms : List Item) → IsPage (reset b ms empty)
  unfolding reset
  reset-IsPage ms =
      let e = record empty { collection = numbers 0 ms } in
      let (s, c) = render_fields ms e in
      record {
        page_same = s ∙ sym c;
        page_each = render-Shown ms e tt;
        page_all = render-IsWhole ms e (λ k v q r. absurd (cc (q)));
      }

  create-IsPage : (m : Item) (e : Entries) → IsPage e → IsPage (create b m e)
  unfolding create add
  create-IsPage m e h = record {
    page_same = ap (λ ks. ks ++ length e.views ∷ []) h.page_same;
    page_each = unfold add in add-Shown m e h.page_each;
    page_all = unfold add in add-IsWhole m e h.page_all;
  }

  modify-Shown_ne :
      (i k : ℕ) (e : App.Event) (vs : List AppView)
      → k ≢ i
      → Shown vs k
      → Shown (modify i (App.handle b e) vs) k
  modify-Shown_ne i k e vs n (v, q, c, r) =
      (v, get_elem?-modify_ne i k (App.handle b e) vs n ∙ q, c, r)

  -- A click that does not destroy leaves the entry on the page.
  modify-Shown :
      (i k : ℕ) (e : App.Event) (vs : List AppView)
      → destroys e ≡ false
      → Shown vs k
      → Shown (modify i (App.handle b e) vs) k
  modify-Shown i k e vs n (v, q, c, r) = elim (Bool-cases (k == i)) [
    | inl t ↦
        let s : k ≡ i = ground arith in
        let f = App.handle b e in
        (
          f v,
          ap (get_elem? (modify i f vs)) s
              ∙ get_elem?-modify i f vs (ap (get_elem? vs) (sym s) ∙ q),
          handle-IsCurrent b d e v c,
          removed-handle b e v (λ t. absurd (cc (n, ap destroys t))) ∙ r,
        )
    | inr t ↦ modify-Shown_ne i k e vs (λ s. ground (arith, s, t)) (v, q, c, r)
  ]

  -- The view that a click made of another one.
  clicked_view :
      (i k : ℕ) (a : App.Event) (vs : List AppView) {v : AppView}
      → k ≡ i
      → get_elem? (modify i (App.handle b a) vs) k ≡ some v
      → (u : AppView) × (get_elem? vs i ≡ some u) × ((App.handle b a u).removed ≡ v.removed)
  clicked_view i k a vs s q =
      let f = App.handle b a in
      let (u, g, p) = get_elem?-modify-some i f vs (ap (get_elem? (modify i f vs)) (sym s) ∙ q) in
      (u, g, ap AppView.removed (some-injective _ _ p))

  modify-IsWhole :
      (i : ℕ) (a : App.Event) (e : Entries)
      → destroys a ≡ false
      → IsWhole e
      → IsWhole (record e { views = modify i (App.handle b a) e.views })
  modify-IsWhole i a e n h k v q r = elim (Bool-cases (k == i)) [
    | inl t ↦
        let s : k ≡ i = ground arith in
        let (u, g, p) = clicked_view i k a e.views s q in
        ap (contains e.shown) s
        ∙ h i u g (sym (removed-handle b a u (λ t. absurd (cc (n, ap destroys t)))) ∙ p ∙ r)
    | inr t ↦ h k v (sym (get_elem?-modify_ne i k _ e.views (λ s. ground (arith, s, t))) ∙ q) r
  ]

  is_destroying : (a : App.Event) → destroys a ≡ true → a ≡ App.destroying true
  is_destroying (App.destroying ok) h = ap App.destroying h
  is_destroying (App.suspending ok) h = absurd (cc)
  is_destroying (App.scaling answer) h = absurd (cc)

  remove-IsWhole :
      (i : ℕ) (a : App.Event) (e : Entries) (c : List ℕ)
      → destroys a ≡ true
      → IsWhole e
      → IsWhole (record {
        views = modify i (App.handle b a) e.views;
        collection = c;
        shown = remove i e.shown;
      })
  remove-IsWhole i a e c n h k v q r = elim (Bool-cases (k == i)) [
    | inl t ↦
        let s : k ≡ i = ground arith in
        let (u, g, p) = clicked_view i k a e.views s q in
        let gone =
          ap (λ x. (App.handle b x u).removed) (is_destroying a n) ∙ removed-destroying b u in
        absurd (cc (gone, p, r))
    | inr t ↦
        let ne : k ≢ i = λ s. ground (arith, s, t) in
        contains-remove i k e.shown ne ∙ h k v (sym (get_elem?-modify_ne i k _ e.views ne) ∙ q) r
  ]

  click-IsPage : (i : ℕ) (a : App.Event) (e : Entries) → IsPage e → IsPage (click b i a e)
  unfolding click
  click-IsPage i a e h = elim (Bool-cases (destroys a)) [
    | inl t ↦ rw t (record {
      page_same = ap (remove i) h.page_same;
      page_each =
          All-remove {P = Shown e.views} {Q = Shown (modify i (App.handle b a) e.views)} i e.shown
            (λ k n s. modify-Shown_ne i k a e.views n s) h.page_each;
      page_all = remove-IsWhole i a e (remove i e.collection) t h.page_all;
    })
    | inr t ↦ rw t (record {
      page_same = h.page_same;
      page_each =
          All-imp {P = Shown e.views} {Q = Shown (modify i (App.handle b a) e.views)} e.shown
            (λ k s. modify-Shown i k a e.views t s) h.page_each;
      page_all = modify-IsWhole i a e t h.page_all;
    })
  ]

  handle-IsPage : (a : Event) (e : Entries) → IsPage e → IsPage (handle b a e)
  unfolding handle
  handle-IsPage (created m) e h = create-IsPage m e h
  handle-IsPage (clicked i a) e h = if-P IsPage (contains e.shown i) (click-IsPage i a e h) h

  handle_all-IsPage : (ks : List Event) (e : Entries) → IsPage e → IsPage (handle_all b ks e)
  unfolding handle_all
  handle_all-IsPage [] e h = h
  handle_all-IsPage (k ∷ ks) e h = handle_all-IsPage ks (handle b k e) (handle-IsPage k e h)

  -- After one fetch and any clicks on the entries and creations, the page has an entry for each
  -- application of the collection, in order and no other; each shows its application as it is and is
  -- not removed; and every entry that was made and not removed is on the page, where `set` triggers a
  -- change unless the value stays.
  pub handle_all-reset-IsPage :
      (ms : List Item) (ks : List Event) → IsPage (handle_all b ks (reset b ms empty))
  handle_all-reset-IsPage ms ks = handle_all-IsPage ks (reset b ms empty) (reset-IsPage ms)
