-- ===== src/Marathon/Filter/Settled.antt =====
-- What a key leads to: its timeout filters by the value that was typed then.
use base_service.Base.{
  ℕ, ◌+◌, ◌≡◌, refl, ap, ◌∙◌, if_true, Option, true, some, List, [], ◌∷◌, map, All, length, ==_refl,
}
use base_service.Text.{Text}
use base_service.Browser.{clear_interval, contains, remove}
use base_service.Marathon.Filter.{
  AppElement, LiveFilter, Event, keydown, typed, due, first_display, start, change, press, elapse,
  handle, handle_all,
}
use base_service.Marathon.Filter.Rounds.{shown_as, found}
use base_service.Marathon.Filter.History.{IsPage, change_page, start-IsPage, handle_all-IsPage}
use base_service.Marathon.Filter.Pending.{AtMostOne, cleared, remove_single, handle_all-start}

module _ {M : Type 0} (lower : Text → Text) (get : Option Text → Option M) where
  -- The timeout that the next key sets.
  abbrev pub next_timeout : LiveFilter M → ℕ
  next_timeout s = (clear_interval s.key_timeout s.timeouts).next

  -- A key, what it types, and the end of its timeout.
  abbrev pub stroke : Text → LiveFilter M → List Event
  stroke w s = keydown ∷ typed w ∷ due (next_timeout s) ∷ []

  -- The filter before the change at the end of the timeout.
  abbrev waiting : Text → LiveFilter M → LiveFilter M
  waiting w s = record s {
    value = w;
    key_timeout = some (next_timeout s);
    timeouts = record (clear_interval s.key_timeout s.timeouts) {
      live = [];
      next = next_timeout s + 1;
    };
  }

  handle_all-stroke :
      (w : Text) (s : LiveFilter M)
      → AtMostOne lower get s
      → handle_all lower get (stroke w s) s ≡ change lower get (waiting w s)
  unfolding handle_all handle press elapse
  handle_all-stroke w s h =
      let c = clear_interval s.key_timeout s.timeouts in
      let k = next_timeout s in
      let e = cleared lower get s h in
      let here : contains (k ∷ c.live) k ≡ true = rw (==_refl k) refl in
      let gone : remove k (k ∷ c.live) ≡ [] =
        ap (λ ks. remove k (k ∷ ks)) e ∙ remove_single k k (rw (==_refl k) refl) in
      let left : List ℕ → LiveFilter M =
        λ ks. record (waiting w s) { timeouts = record c { live = ks; next = k + 1 } } in
      if_true (change lower get (left (remove k (k ∷ c.live)))) _ here
      ∙ ap (λ ks. change lower get (left ks)) gone

  -- After any keys, typing, changes and timeouts on a page whose items were displayed alike, a key
  -- that types a value and the end of its timeout leave displayed exactly the items of the page whose
  -- heading contains that value, both folded, as they were displayed at the start, with their number
  -- and their models; and no timeout waits.
  pub stroke-handle_all :
      (xs : List AppElement) (v : Text) (es : List Event) (w : Text)
      → All (λ x. x.display ≡ first_display xs) xs
      → let s = handle_all lower get es (start lower get xs v) in
        let t = handle_all lower get (stroke w s) s in
        (t.lis ≡ map (shown_as lower get (lower w) (first_display xs)) xs)
        × (t.num_shown ≡ length (found lower get (lower w) xs))
        × (t.results ≡ some (found lower get (lower w) xs))
        × (t.timeouts.live ≡ [])
  stroke-handle_all xs v es w u =
      let s = handle_all lower get es (start lower get xs v) in
      let h =
        handle_all-IsPage lower get xs es (start lower get xs v) (start-IsPage lower get xs v u) in
      let p : IsPage lower get xs (waiting w s) = record {
        page_old = h.page_old;
        page_uniform = h.page_uniform;
        page_items = h.page_items;
      } in
      let e =
        handle_all-stroke w s (handle_all-start lower get xs v es)
        ∙ change_page lower get xs (waiting w s) p in
      (
        ap (λ r. r.lis) e,
        ap (λ r. r.num_shown) e,
        ap (λ r. r.results) e,
        ap (λ r. r.timeouts.live) e,
      )
