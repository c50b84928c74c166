-- ===== src/Marathon/Lightbox/Closing.antt =====
-- What closes the lightbox: clicks on their way out, and the lock.
use base_service.Base.{
  ℕ, suc, ◌+◌, ◌≡◌, refl, if-P, inl, inr, Bool-cases, Bool, true, false, some, not, ◌&&◌, List, [],
  ◌∷◌, arith, if◌then◌else◌,
}
use base_service.Marathon.Lightbox.{
  Action, opening, closing, dismissal, locking, unlocking, filling, coloring, clicking, perform,
  perform_all, Backbone, Lightbox, Spot, content_spot, closer, plain_spot, toggle, update_content,
  update_color, set_open, set_content, color, open_box, close, dismiss, lock, click,
}

-- How many closing elements a click reaches on its way out before the content stops it: those inside
-- the content, or all on a way that does not meet the content.
abbrev pub closers : List Spot → ℕ
closers [] = 0
closers (content_spot ∷ _) = 0
closers (closer ∷ path) = suc (closers path)
closers (plain_spot ∷ path) = closers path

abbrev pub reaches_out : List Spot → Bool
reaches_out [] = true
reaches_out (content_spot ∷ _) = false
reaches_out (closer ∷ path) = reaches_out path
reaches_out (plain_spot ∷ path) = reaches_out path

module _ {C : Type 0} where
  -- Neither asks the lightbox to close nor unlocks it.
  abbrev pub Leaves : Action C → Type 0
  Leaves closing = ⊥
  Leaves unlocking = ⊥
  Leaves (clicking path) = closers path ≡ 0
  Leaves _ = Unit

  abbrev pub AllLeave : List (Action C) → Type 0
  AllLeave [] = Unit
  AllLeave (a ∷ acts) = Leaves a × AllLeave acts

  pub record IsHeld (k : ℕ) (v : Lightbox C) : Type 0 where
    pub held_lock : v.model.locked ≡ true
    pub held_open : v.model.opened ≡ true
    pub held_closes : v.closes ≡ k

  module _ (b : Backbone C) where
    close_lock : (v : Lightbox C) → (close b v).model.locked ≡ v.model.locked
    unfolding close set_open toggle
    close_lock v = elim (Bool-cases (b.flag_changes v.model.opened false)) [
      | inl e ↦ rw e refl
      | inr e ↦ rw e refl
    ]

    close_count : (v : Lightbox C) → (close b v).closes ≡ v.closes + 1
    unfolding close set_open toggle
    close_count v = elim (Bool-cases (b.flag_changes v.model.opened false)) [
      | inl e ↦ rw e refl
      | inr e ↦ rw e refl
    ]

    -- A click triggers `close` once for each closing element that it reaches on its way out before
    -- the content stops it, and once more if it reaches the lightbox itself and that is not locked.
    pub closes-click :
        (path : List Spot) (v : Lightbox C)
        → (click b path v).closes
          ≡ v.closes + closers path + (if reaches_out path && not v.model.locked then 1 else 0)
    unfolding click dismiss
    closes-click [] v = elim (Bool-cases v.model.locked) [
      | inl e ↦ simp e (omega arith)
      | inr e ↦ ground (arith, close_count v, e)
    ]
    closes-click (content_spot ∷ path) v = omega arith
    closes-click (closer ∷ path) v =
        ground (arith, closes-click path (close b v), close_count v, close_lock v)
    closes-click (plain_spot ∷ path) v = closes-click path v

    set_open-IsHeld : (k : ℕ) (v : Lightbox C) → IsHeld k v → IsHeld k (set_open b true v)
    unfolding set_open toggle
    set_open-IsHeld k v h = elim (Bool-cases (b.flag_changes v.model.opened true)) [
      | inl e ↦
          rw e (record { held_lock = h.held_lock; held_open = refl; held_closes = h.held_closes })
      | inr e ↦
          rw e (record { held_lock = h.held_lock; held_open = refl; held_closes = h.held_closes })
    ]

    click_held :
        (path : List Spot) (v : Lightbox C)
        → closers path ≡ 0
        → v.model.locked ≡ true
        → click b path v ≡ v
    unfolding click dismiss
    click_held [] v n l = simp l
    click_held (content_spot ∷ path) v n l = refl
    click_held (closer ∷ path) v n l = absurd (omega arith)
    click_held (plain_spot ∷ path) v n l = click_held path v n l

    perform-IsHeld :
        (k : ℕ) (a : Action C) (v : Lightbox C) → Leaves a → IsHeld k v → IsHeld k (perform b a v)
    unfolding perform open_box dismiss lock set_content update_content color update_color
    perform-IsHeld k opening v n h = set_open-IsHeld k v h
    perform-IsHeld k closing v n h = absurd n
    perform-IsHeld k dismissal v n h = simp h.held_lock h
    perform-IsHeld k locking v n h = record {
      held_lock = refl;
      held_open = h.held_open;
      held_closes = h.held_closes;
    }
    perform-IsHeld k unlocking v n h = absurd n
    perform-IsHeld k (filling c) v n h =
        if-P (IsHeld k) (b.content_changes v.model.content_view (some c))
          (if-P (IsHeld k) v.rendered
            (record {
              held_lock = h.held_lock;
              held_open = h.held_open;
              held_closes = h.held_closes;
            })
            (record {
              held_lock = h.held_lock;
              held_open = h.held_open;
              held_closes = h.held_closes;
            }))
          (record { held_lock = h.held_lock; held_open = h.held_open; held_closes = h.held_closes })
    perform-IsHeld k (coloring c) v n h =
        elim (Bool-cases (b.color_changes v.model.background_color c)) [
          | inl e ↦ rw e (record {
            held_lock = h.held_lock;
            held_open = h.held_open;
            held_closes = h.held_closes;
          })
          | inr e ↦ rw e (record {
            held_lock = h.held_lock;
            held_open = h.held_open;
            held_closes = h.held_closes;
          })
        ]
    perform-IsHeld k (clicking path) v n h = rw (click_held path v n h.held_lock) h

    -- An open and locked lightbox stays open and locked and triggers no `close`, whatever is done
    -- but closing, unlocking and clicks that reach a closing element before the
    -- content stops them.
    pub perform_all-IsHeld :
        (acts : List (Action C)) (k : ℕ) (v : Lightbox C)
        → AllLeave acts
        → IsHeld k v
        → IsHeld k (perform_all b acts v)
    unfolding perform_all
    perform_all-IsHeld [] k v n h = h
    perform_all-IsHeld (a ∷ acts) k v n h =
        perform_all-IsHeld acts k (perform b a v) n.1 (perform-IsHeld k a v n.0 h)
