-- ===== src/Marathon/App/Requests.antt =====
-- The requests of a session on one application.
use base_service.Base.{
  ℕ, ◌+◌, ◌≡◌, ◌≢◌, refl, sym, ap, ◌∙◌, inl, inr, Bool, true, false, none, some, List, [], ◌∷◌,
  arith, length, if◌then◌else◌, Bool-cases, if-P,
}
use base_service.Text.{is_empty}
use base_service.Marathon.App.{
  Value, tenths, text, Item, AppView, Call, Event, suspending, destroying, scaling, Backbone,
  data_of, render, initialize, sync, scale_item, remove, destroy_item, suspend_view, destroy_view,
  scale_view, handle, handle_all,
}

-- `set` is silent only about a value that stays.
abbrev pub Detects : Backbone → Type 0
Detects b = (m n : Value) → b.value_changes m n ≡ false → m ≡ n

-- The events that ask for something: a confirmation, or an answer that is not empty.
abbrev pub asks : Event → Bool
asks (suspending ok) = ok
asks (destroying ok) = ok
asks (scaling none) = false
asks (scaling (some t)) = if is_empty t then false else true

abbrev pub asked : List Event → ℕ
asked [] = 0
asked (e ∷ es) = (if asks e then 1 else 0) + asked es

-- The instances that the last suspension or scaling asked for, else the given ones.
abbrev pub wanted : Value → List Event → Value
wanted n [] = n
wanted n (suspending true ∷ es) = wanted (tenths 0) es
wanted n (scaling (some (c ∷ t)) ∷ es) = wanted (text (c ∷ t)) es
wanted n (_ ∷ es) = wanted n es

wanted-cons :
    (n : Value) (e : Event) (es : List Event) → wanted n (e ∷ es) ≡ wanted (wanted n (e ∷ [])) es
wanted-cons n (suspending true) es = refl
wanted-cons n (suspending false) es = refl
wanted-cons n (destroying ok) es = refl
wanted-cons n (scaling none) es = refl
wanted-cons n (scaling (some [])) es = refl
wanted-cons n (scaling (some (c ∷ t))) es = refl

module _ (b : Backbone) where
  -- The last request carries the application as it is.
  abbrev pub Carries : Item → List Call → Type 0
  Carries m [] = Unit
  Carries m (c ∷ _) = c.options.data_json ≡ some (b.stringify m)

  pub record IsCurrent (v : AppView) : Type 0 where
    pub current_html : v.html ≡ some (data_of b v.item)
    pub current_call : Carries v.item v.calls

  scale_item_field :
      (n : Value) (v : AppView)
      → ((scale_item b n v).item ≡ record v.item { instances = n })
        × (length (scale_item b n v).calls ≡ length v.calls + 1)
  unfolding scale_item render
  scale_item_field n v = elim (Bool-cases (b.value_changes v.item.instances n)) [
    | inl e ↦ rw e (refl, omega arith)
    | inr e ↦ rw e (refl, omega arith)
  ]

  prevented_scale : (n : Value) (v : AppView) → (scale_item b n v).prevented + 1 ≡ v.prevented + 1
  unfolding scale_item render
  prevented_scale n v = elim (Bool-cases (b.value_changes v.item.instances n)) [
    | inl e ↦ rw e refl
    | inr e ↦ rw e refl
  ]

  destroy_item_field :
      (v : AppView)
      → ((destroy_item b v).item ≡ v.item) × (length (destroy_item b v).calls ≡ length v.calls + 1)
  unfolding destroy_item remove
  destroy_item_field v = (refl, omega arith)

  -- The model and the number of requests after one event.
  handle_fields :
      (e : Event) (v : AppView)
      → ((handle b e v).item ≡ record v.item { instances = wanted v.item.instances (e ∷ []) })
        × (length (handle b e v).calls ≡ length v.calls + (if asks e then 1 else 0))
        × ((handle b e v).prevented ≡ v.prevented + 1)
  unfolding handle suspend_view destroy_view scale_view
  handle_fields (suspending true) v =
      let (i, c) = scale_item_field (tenths 0) v in (i, c, prevented_scale (tenths 0) v)
  handle_fields (suspending false) v = (refl, omega arith, refl)
  handle_fields (destroying true) v = let (i, c) = destroy_item_field v in (i, c, refl)
  handle_fields (destroying false) v = (refl, omega arith, refl)
  handle_fields (scaling none) v = (refl, omega arith, refl)
  handle_fields (scaling (some [])) v = (refl, omega arith, refl)
  handle_fields (scaling (some (c ∷ t))) v =
      let (i, k) = scale_item_field (text (c ∷ t)) v in (i, k, prevented_scale (text (c ∷ t)) v)

  handle_all_fields :
      (es : List Event) (v : AppView)
      → ((handle_all b es v).item ≡ record v.item { instances = wanted v.item.instances es })
        × (length (handle_all b es v).calls ≡ length v.calls + asked es)
        × ((handle_all b es v).prevented ≡ v.prevented + length es)
  unfolding handle_all
  handle_all_fields [] v = (refl, omega arith, omega arith)
  handle_all_fields (e ∷ es) v =
      let (i, c, p) = handle_all_fields es (handle b e v) in
      let (j, k, q) = handle_fields e v in
      (
        i
            ∙ ap {A = Item} {B = Item} (λ m. record m { instances = wanted m.instances es }) j
            ∙ ap {A = Value} {B = Item} (λ n. record v.item { instances = n })
                (sym (wanted-cons v.item.instances e es)),
        omega (arith, c, k),
        omega (arith, p, q),
      )

  -- After any events on the entry of an application, its instances are those that the last
  -- suspension or scaling asked for, its other attributes are as before, one request was made for
  -- each event that was confirmed or answered with a text that is not empty, and the default of
  -- every event was prevented.
  pub handle_all-initialize :
      (m : Item) (es : List Event)
      → let v = handle_all b es (render b (initialize b m)) in
        (v.item ≡ record m { instances = wanted m.instances es })
        × (length v.calls ≡ asked es)
        × (v.prevented ≡ length es)
  unfolding render initialize
  handle_all-initialize m es =
      let (i, c, p) = handle_all_fields es (render b (initialize b m)) in
      (i, omega (arith, c), omega (arith, p))

  -- Only a confirmed destruction removes the entry.
  pub removed-handle :
      (e : Event) (v : AppView) → e ≢ destroying true → (handle b e v).removed ≡ v.removed
  unfolding handle suspend_view destroy_view scale_view scale_item render
  removed-handle (suspending true) v n =
      if-P (λ (w : AppView). w.removed ≡ v.removed) (b.value_changes v.item.instances (tenths 0))
        refl refl
  removed-handle (suspending false) v n = refl
  removed-handle (destroying true) v n = absurd (n refl)
  removed-handle (destroying false) v n = refl
  removed-handle (scaling none) v n = refl
  removed-handle (scaling (some [])) v n = refl
  removed-handle (scaling (some (c ∷ t))) v n =
      if-P (λ (w : AppView). w.removed ≡ v.removed)
        (b.value_changes v.item.instances (text (c ∷ t))) refl refl

  pub removed-destroying : (v : AppView) → (handle b (destroying true) v).removed ≡ true
  unfolding handle destroy_view destroy_item remove
  removed-destroying v = refl

  -- A new entry, drawn.
  pub drawn-IsCurrent :
      (m : Item)
      → IsCurrent (render b (initialize b m)) × ((render b (initialize b m)).removed ≡ false)
  unfolding render initialize
  drawn-IsCurrent m = (record { current_html = refl; current_call = tt }, refl)

  module _ (d : Detects b) where
    scale_item-IsCurrent : (n : Value) (v : AppView) → IsCurrent v → IsCurrent (scale_item b n v)
    unfolding scale_item render sync
    scale_item-IsCurrent n v h = elim (Bool-cases (b.value_changes v.item.instances n)) [
      | inl e ↦ rw e (record { current_html = refl; current_call = refl })
      | inr e ↦ rw e (record {
        current_html =
            h.current_html
            ∙ ap (λ k. some (data_of b (record v.item { instances = k }))) (d v.item.instances n e);
        current_call = refl;
      })
    ]

    prevent : (v : AppView) (k : ℕ) → IsCurrent v → IsCurrent (record v { prevented = k })
    prevent v k h = record { current_html = h.current_html; current_call = h.current_call }

    destroy_item-IsCurrent : (v : AppView) → IsCurrent v → IsCurrent (destroy_item b v)
    unfolding destroy_item remove sync
    destroy_item-IsCurrent v h = record { current_html = h.current_html; current_call = refl }

    pub handle-IsCurrent : (e : Event) (v : AppView) → IsCurrent v → IsCurrent (handle b e v)
    unfolding handle suspend_view destroy_view scale_view
    handle-IsCurrent (suspending true) v h = prevent _ _ (scale_item-IsCurrent (tenths 0) v h)
    handle-IsCurrent (suspending false) v h = prevent v _ h
    handle-IsCurrent (destroying true) v h = prevent _ _ (destroy_item-IsCurrent v h)
    handle-IsCurrent (destroying false) v h = prevent v _ h
    handle-IsCurrent (scaling none) v h = prevent v _ h
    handle-IsCurrent (scaling (some [])) v h = prevent v _ h
    handle-IsCurrent (scaling (some (c ∷ t))) v h =
        prevent _ _ (scale_item-IsCurrent (text (c ∷ t)) v h)

    handle_all-IsCurrent :
        (es : List Event) (v : AppView) → IsCurrent v → IsCurrent (handle_all b es v)
    unfolding handle_all
    handle_all-IsCurrent [] v h = h
    handle_all-IsCurrent (e ∷ es) v h =
        handle_all-IsCurrent es (handle b e v) (handle-IsCurrent e v h)

    -- Whatever is done with an entry after it was drawn, it shows the application as it is, and the
    -- last request, if there was one, carries the application as it is.
    handle_all-drawn :
        (m : Item) (es : List Event) → IsCurrent (handle_all b es (render b (initialize b m)))
    unfolding render initialize
    handle_all-drawn m es =
        handle_all-IsCurrent es (render b (initialize b m))
          (record { current_html = refl; current_call = tt })
