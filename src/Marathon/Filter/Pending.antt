-- ===== src/Marathon/Filter/Pending.antt =====
-- The delay of the filter: at most one timeout waits.
use base_service.Base.{
  ℕ, ◌≡◌, refl, sym, subst, if_true, if_false, ◌∙◌, ap, ◌⊎◌, inl, inr, true, Option, none, some,
  List, [], ◌∷◌, arith, ==_refl, Bool-cases,
}
use base_service.Text.{Text}
use base_service.Browser.{Intervals, contains, remove, clear_interval}
use base_service.Marathon.Filter.{
  AppElement, LiveFilter, Event, keydown, changed, typed, due, start, change, press, elapse, handle,
  handle_all,
}

cleared_nothing : (t : Option ℕ) (w : Intervals) → w.live ≡ [] → (clear_interval t w).live ≡ []
cleared_nothing none w e = e
cleared_nothing (some k) w e = ap (remove k) e

pub remove_single : (j k : ℕ) → contains (j ∷ []) k ≡ true → remove k (j ∷ []) ≡ []
remove_single j k h = ground arith

module _ {M : Type 0} (lower : Text → Text) (get : Option Text → Option M) where
  -- No timeout waits, or the one that the next key would clear.
  abbrev pub AtMostOne : LiveFilter M → Type 0
  AtMostOne s =
      (s.timeouts.live ≡ []) ⊎ ((k : ℕ) × (s.timeouts.live ≡ k ∷ []) × (s.key_timeout ≡ some k))

  pub cleared :
      (s : LiveFilter M) → AtMostOne s → (clear_interval s.key_timeout s.timeouts).live ≡ []
  cleared s (inl e) = cleared_nothing s.key_timeout s.timeouts e
  cleared s (inr (k, e, t)) =
      ap (λ o. (clear_interval o s.timeouts).live) t
      ∙ ap (remove k) e
      ∙ remove_single k k (rw (==_refl k) refl)

  press-AtMostOne : (s : LiveFilter M) → AtMostOne s → AtMostOne (press lower get s)
  unfolding press
  press-AtMostOne s h = inr (
    (clear_interval s.key_timeout s.timeouts).next,
    ap (λ ks. (clear_interval s.key_timeout s.timeouts).next ∷ ks) (cleared s h),
    refl,
  )

  removed :
      (k : ℕ) (s : LiveFilter M)
      → AtMostOne s
      → contains s.timeouts.live k ≡ true
      → remove k s.timeouts.live ≡ []
  removed k s (inl e) h = ap (remove k) e
  removed k s (inr (j, e, t)) h =
      ap (remove k) e ∙ remove_single j k (sym (ap (λ ks. contains ks k) e) ∙ h)

  elapse-AtMostOne : (k : ℕ) (s : LiveFilter M) → AtMostOne s → AtMostOne (elapse lower get k s)
  unfolding elapse change
  elapse-AtMostOne k s h =
      let w = record s { timeouts = record s.timeouts { live = remove k s.timeouts.live } } in
      elim (Bool-cases (contains s.timeouts.live k)) [
        | inl e ↦ subst AtMostOne (sym (if_true (change lower get w) s e)) (inl (removed k s h e))
        | inr e ↦ subst AtMostOne (sym (if_false (change lower get w) s e)) h
      ]

  handle-AtMostOne : (e : Event) (s : LiveFilter M) → AtMostOne s → AtMostOne (handle lower get e s)
  unfolding handle change
  handle-AtMostOne keydown s h = press-AtMostOne s h
  handle-AtMostOne changed s h = h
  handle-AtMostOne (typed v) s h = h
  handle-AtMostOne (due k) s h = elapse-AtMostOne k s h

  handle_all-AtMostOne :
      (es : List Event) (s : LiveFilter M) → AtMostOne s → AtMostOne (handle_all lower get es s)
  unfolding handle_all
  handle_all-AtMostOne [] s h = h
  handle_all-AtMostOne (e ∷ es) s h =
      handle_all-AtMostOne es (handle lower get e s) (handle-AtMostOne e s h)

  -- After any events, at most one timeout waits, and it is the one that the next key clears.
  pub handle_all-start :
      (xs : List AppElement) (v : Text) (es : List Event)
      → AtMostOne (handle_all lower get es (start lower get xs v))
  unfolding start
  handle_all-start xs v es = handle_all-AtMostOne es (start lower get xs v) (inl refl)
