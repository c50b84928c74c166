-- ===== src/Marathon/Filter/History.antt =====
-- What the filter shows: it depends on the value alone, whatever was filtered before.
use base_service.Base.{
  ℕ, ◌≡◌, refl, sym, subst, if-P, ap, ◌∙◌, ◌⊎◌, inl, inr, true, false, Option, List, [], ◌∷◌, map,
  All, length, length-map, keep, some, Bool-cases, if_true, if_false,
}
use base_service.Text.{Text}
use base_service.Browser.{contains, remove}
use base_service.Marathon.Filter.{
  AppElement, LiveFilter, Event, keydown, changed, typed, due, hidden, first_display, matches,
  start, change, press, elapse, handle, handle_all,
}
use base_service.Marathon.Filter.Rounds.{IsUniform, shown_as, found, change-shown}

module _ {M : Type 0} (lower : Text → Text) (get : Option Text → Option M) where
  uniform :
      (filter old : Text) (x : AppElement)
      → (matches lower get filter x ≡ true) ⊎ (matches lower get filter x ≡ false)
      → IsUniform old (shown_as lower get filter old x)
  uniform filter old x (inl e) = inl (if_true old hidden e)
  uniform filter old x (inr e) = inr (if_false old hidden e)

  map-shown_as :
      (f g old : Text) (xs : List AppElement)
      → map (shown_as lower get g old) (map (shown_as lower get f old) xs)
        ≡ map (shown_as lower get g old) xs
  map-shown_as f g old [] = refl
  map-shown_as f g old (x ∷ xs) = ap (shown_as lower get g old x ∷◌) (map-shown_as f g old xs)

  shown_as-IsUniform :
      (filter old : Text) (xs : List AppElement)
      → All (IsUniform old) (map (shown_as lower get filter old) xs)
  shown_as-IsUniform filter old [] = tt
  shown_as-IsUniform filter old (x ∷ xs) = (
    uniform filter old x (Bool-cases (matches lower get filter x)),
    shown_as-IsUniform filter old xs,
  )

  -- The items are those of the page, each hidden or displayed as at the start.
  pub record IsPage (xs : List AppElement) (s : LiveFilter M) : Type 0 where
    pub page_old : s.old_display ≡ first_display xs
    pub page_uniform : All (IsUniform s.old_display) s.lis
    pub page_items :
        (filter : Text)
        → map (shown_as lower get filter s.old_display) s.lis
          ≡ map (shown_as lower get filter (first_display xs)) xs

  alike-IsUniform :
      (old : Text) (xs : List AppElement) → All (λ x. x.display ≡ old) xs → All (IsUniform old) xs
  alike-IsUniform old [] h = tt
  alike-IsUniform old (x ∷ xs) h = (inl h.0, alike-IsUniform old xs h.1)

  pub start-IsPage :
      (xs : List AppElement) (v : Text)
      → All (λ x. x.display ≡ first_display xs) xs
      → IsPage xs (start lower get xs v)
  unfolding start
  start-IsPage xs v h = record {
    page_old = refl;
    page_uniform = alike-IsUniform (first_display xs) xs h;
    page_items = λ filter. refl;
  }

  shown-IsPage :
      (xs : List AppElement) (s : LiveFilter M) (n : ℕ) (r : Option (List (Option M)))
      → IsPage xs s
      → IsPage xs (record s {
        lis = map (shown_as lower get (lower s.value) s.old_display) s.lis;
        num_shown = n;
        results = r;
      })
  shown-IsPage xs s n r h = record {
    page_old = h.page_old;
    page_uniform = shown_as-IsUniform (lower s.value) s.old_display s.lis;
    page_items =
        λ filter. map-shown_as (lower s.value) filter s.old_display s.lis ∙ h.page_items filter;
  }

  change-IsPage :
      (xs : List AppElement) (s : LiveFilter M) → IsPage xs s → IsPage xs (change lower get s)
  change-IsPage xs s h =
      subst (IsPage xs) (sym (change-shown lower get s h.page_uniform)) (shown-IsPage xs s _ _ h)

  pub handle-IsPage :
      (xs : List AppElement) (e : Event) (s : LiveFilter M)
      → IsPage xs s
      → IsPage xs (handle lower get e s)
  unfolding handle press elapse
  handle-IsPage xs keydown s h = record {
    page_old = h.page_old;
    page_uniform = h.page_uniform;
    page_items = h.page_items;
  }
  handle-IsPage xs changed s h = change-IsPage xs s h
  handle-IsPage xs (typed v) s h = record {
    page_old = h.page_old;
    page_uniform = h.page_uniform;
    page_items = h.page_items;
  }
  handle-IsPage xs (due k) s h =
      let w = record s { timeouts = record s.timeouts { live = remove k s.timeouts.live } } in
      let i : IsPage xs w = record {
        page_old = h.page_old;
        page_uniform = h.page_uniform;
        page_items = h.page_items;
      } in
      if-P (IsPage xs) (contains s.timeouts.live k) (change-IsPage xs w i) h

  pub handle_all-IsPage :
      (xs : List AppElement) (es : List Event) (s : LiveFilter M)
      → IsPage xs s
      → IsPage xs (handle_all lower get es s)
  unfolding handle_all
  handle_all-IsPage xs [] s h = h
  handle_all-IsPage xs (e ∷ es) s h =
      handle_all-IsPage xs es (handle lower get e s) (handle-IsPage xs e s h)

  found-shown_as :
      (f g old : Text) (xs : List AppElement)
      → found lower get f (map (shown_as lower get g old) xs) ≡ found lower get f xs
  found-shown_as f g old [] = refl
  found-shown_as f g old (x ∷ xs) = elim (Bool-cases (matches lower get f x)) [
    | inl e ↦ rw e (ap (get x.class_1 ∷◌) (found-shown_as f g old xs))
    | inr e ↦ rw e (found-shown_as f g old xs)
  ]

  -- The models that a change finds are those of the page.
  page_found :
      (f : Text) (xs : List AppElement) (s : LiveFilter M)
      → IsPage xs s
      → found lower get f s.lis ≡ found lower get f xs
  page_found f xs s h =
      sym (found-shown_as f f s.old_display s.lis)
      ∙ ap (found lower get f) (h.page_items f)
      ∙ found-shown_as f f (first_display xs) xs

  pub change_page :
      (xs : List AppElement) (s : LiveFilter M)
      → IsPage xs s
      → change lower get s ≡ record s {
        lis = map (shown_as lower get (lower s.value) (first_display xs)) xs;
        num_shown = length (found lower get (lower s.value) xs);
        results = some (found lower get (lower s.value) xs);
      }
  change_page xs s h =
      let f = page_found (lower s.value) xs s h in
      let n : length (keep (matches lower get (lower s.value)) s.lis)
          ≡ length (found lower get (lower s.value) xs) =
        sym (
          length-map (λ (x : AppElement). get x.class_1)
            (keep (matches lower get (lower s.value)) s.lis))
        ∙ ap length f in
      change-shown lower get s h.page_uniform ∙ (λ i. record s {
        lis = h.page_items (lower s.value) i;
        num_shown = n i;
        results = some (f i);
      })

  -- After any keys, typing, changes and timeouts on a page whose items were displayed alike, a
  -- change displays exactly the items of the page whose heading contains the value, both folded,
  -- as they were displayed at the start, hides the others, and reports their number and their models
  -- in the order of the page, whatever was filtered before.
  pub change-handle_all :
      (xs : List AppElement) (v : Text) (es : List Event)
      → All (λ x. x.display ≡ first_display xs) xs
      → let s = handle_all lower get es (start lower get xs v) in
        change lower get s ≡ record s {
          lis = map (shown_as lower get (lower s.value) (first_display xs)) xs;
          num_shown = length (found lower get (lower s.value) xs);
          results = some (found lower get (lower s.value) xs);
        }
  change-handle_all xs v es u =
      change_page xs (handle_all lower get es (start lower get xs v))
        (handle_all-IsPage xs es (start lower get xs v) (start-IsPage xs v u))

  -- Only typing changes the value.
  abbrev pub value_after : Event → Text → Text
  value_after (typed v) w = v
  value_after _ w = w

  pub value-handle :
      (e : Event) (s : LiveFilter M) → (handle lower get e s).value ≡ value_after e s.value
  unfolding handle press elapse change
  value-handle keydown s = refl
  value-handle changed s = refl
  value-handle (typed v) s = refl
  value-handle (due k) s =
      if-P (λ (r : LiveFilter M). r.value ≡ s.value) (contains s.timeouts.live k) refl refl

  pub value-start : (xs : List AppElement) (v : Text) → (start lower get xs v).value ≡ v
  unfolding start
  value-start xs v = refl
