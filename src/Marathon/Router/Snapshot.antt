-- ===== src/Marathon/Router/Snapshot.antt =====
-- The page after the fetch: the entries grow, and the filter keeps to those that were fetched.
use base_service.Base.{
  ◌≡◌, refl, sym, ap, ◌∙◌, inl, inr, Option-cases, none, Option, some, List, [], ◌∷◌, map, All,
  length,
}
use mathlib.Core.Option.{some-injective}
use base_service.Text.{Text}
use base_service.Marathon.Lightbox.{Backbone}
use base_service.Marathon.App.{Item}
use base_service.Marathon.Form.{Entry}
use base_service.Marathon.Home
use base_service.Marathon.Home.{HomeView}
use base_service.Marathon.Home.Session.{saved, joined, handle_all-reset}
use base_service.Marathon.Filter
use base_service.Marathon.Filter.{AppElement, LiveFilter, first_display}
use base_service.Marathon.Filter.Rounds.{shown_as, found}
use base_service.Marathon.Filter.History.{change-handle_all, value_after, value-start, value-handle}
use base_service.Marathon.Terminal
use base_service.Marathon.Terminal.{Terminal}
use base_service.Marathon.Router.{
  Page, Event, fetched, homely, terminal_event, changed, due, element_of, filter_of, initialize,
  fetch_done, handle, handle_all,
}

-- The applications are fetched once.
abbrev pub NoFetch : List Event → Type 0
NoFetch [] = Unit
NoFetch (fetched ms ∷ es) = ⊥
NoFetch (_ ∷ es) = NoFetch es

abbrev pub home_events : List Event → List Home.Event
home_events [] = []
home_events (homely e ∷ es) = e ∷ home_events es
home_events (_ ∷ es) = home_events es

abbrev pub filter_events : List Event → List Filter.Event
filter_events [] = []
filter_events (terminal_event e ∷ es) = elim (filter_of e) [
  | none ↦ filter_events es
  | some k ↦ k ∷ filter_events es
]
filter_events (changed ∷ es) = Filter.changed ∷ filter_events es
filter_events (due k ∷ es) = Filter.due k ∷ filter_events es
filter_events (_ ∷ es) = filter_events es

abbrev pub terminal_all : List Event → Terminal → Terminal
terminal_all [] t = t
terminal_all (terminal_event e ∷ es) t = terminal_all es (Terminal.handle e t)
terminal_all (_ ∷ es) t = terminal_all es t

-- The elements of the applications.
abbrev pub elements : (Text → Text) → List Item → List AppElement
elements content = map (element_of content)

alike : (content : Text → Text) (ms : List Item) → All (λ x. x.display ≡ []) (elements content ms)
alike content [] = tt
alike content (m ∷ ms) = (refl, alike content ms)

alike_first :
    (content : Text → Text) (ms : List Item)
    → All (λ x. x.display ≡ first_display (elements content ms)) (elements content ms)
alike_first content [] = tt
alike_first content (m ∷ ms) = (refl, alike content ms)

module _ (b : Backbone Item) (made : List Entry → Item) (lower content : Text → Text)
    (get : List Item → Option Text → Option Item) (ms : List Item) where
  abbrev together : HomeView → LiveFilter Item → Terminal → Page
  together h f t = record { home = h; all = some ms; filter = some f; terminal = t }

  -- The three parts run side by side.
  handle_all-together :
      (es : List Event) (h : HomeView) (f : LiveFilter Item) (t : Terminal)
      → NoFetch es
      → handle_all b made lower content get es (together h f t)
        ≡ together
            (Home.handle_all b made get (home_events es) h)
            (Filter.handle_all lower (get ms) (filter_events es) f)
            (terminal_all es t)
  unfolding handle_all handle Home.handle_all Filter.handle_all
  handle_all-together [] h f t n = refl
  handle_all-together (fetched ns ∷ es) h f t n = absurd n
  handle_all-together (homely e ∷ es) h f t n =
      handle_all-together es (Home.handle b made get e h) f t n
  handle_all-together (terminal_event e ∷ es) h f t n = elim (Option-cases (filter_of e)) [
    | inl q ↦
        rw (q, handle_all, handle, filter_events, Filter.handle_all)
          (handle_all-together es h f (Terminal.handle e t) n)
    | inr (k, q) ↦
        rw (q, handle_all, handle, filter_events, Filter.handle_all)
          (handle_all-together es h (Filter.handle lower (get ms) k f) (Terminal.handle e t) n)
  ]
  handle_all-together (changed ∷ es) h f t n =
      handle_all-together es h (Filter.handle lower (get ms) Filter.changed f) t n
  handle_all-together (due k ∷ es) h f t n =
      handle_all-together es h (Filter.handle lower (get ms) (Filter.due k) f) t n

  silent :
      (e : Terminal.Event) (t : Terminal)
      → filter_of e ≡ none
      → (Terminal.handle e t).value ≡ t.value
  unfolding Terminal.handle Terminal.key
  silent Terminal.keydown t q = refl
  silent Terminal.keypress t q = refl
  silent Terminal.keyup t q = refl
  silent (Terminal.typed v) t q = absurd (cc)
  silent Terminal.bound t q = refl
  silent Terminal.focusin t q = refl
  silent Terminal.focusout t q = refl
  silent Terminal.clicked t q = refl

  -- An event of the input that the filter handles gives both the same value.
  heard :
      (e : Terminal.Event) (k : Filter.Event) (f : LiveFilter Item) (t : Terminal)
      → filter_of e ≡ some k
      → f.value ≡ t.value
      → value_after lower (get ms) k f.value ≡ (Terminal.handle e t).value
  unfolding Terminal.handle Terminal.key
  heard Terminal.keydown k f t q h =
      ap (λ k. value_after lower (get ms) k f.value) (some-injective _ _ (sym q)) ∙ h
  heard (Terminal.typed v) k f t q h =
      ap (λ k. value_after lower (get ms) k f.value) (some-injective _ _ (sym q))
  heard Terminal.keypress k f t q h = absurd (cc)
  heard Terminal.keyup k f t q h = absurd (cc)
  heard Terminal.bound k f t q h = absurd (cc)
  heard Terminal.focusin k f t q h = absurd (cc)
  heard Terminal.focusout k f t q h = absurd (cc)
  heard Terminal.clicked k f t q h = absurd (cc)

  -- The filter's value is the terminal's.
  values :
      (es : List Event) (f : LiveFilter Item) (t : Terminal)
      → NoFetch es
      → f.value ≡ t.value
      → (Filter.handle_all lower (get ms) (filter_events es) f).value ≡ (terminal_all es t).value
  unfolding Filter.handle_all Terminal.handle Terminal.key
  values [] f t n h = h
  values (fetched ns ∷ es) f t n h = absurd n
  values (homely e ∷ es) f t n h = values es f t n h
  values (terminal_event e ∷ es) f t n h = elim (Option-cases (filter_of e)) [
    | inl q ↦
        rw (q, filter_events, Filter.handle_all)
          (values es f (Terminal.handle e t) n (h ∙ sym (silent e t q)))
    | inr (k, q) ↦
        rw (q, filter_events, Filter.handle_all)
          (values es (Filter.handle lower (get ms) k f) (Terminal.handle e t) n
            (value-handle lower (get ms) k f ∙ heard e k f t q h))
  ]
  values (changed ∷ es) f t n h = values es _ t n (value-handle lower (get ms) Filter.changed f ∙ h)
  values (due k ∷ es) f t n h = values es _ t n (value-handle lower (get ms) (Filter.due k) f ∙ h)

  reset_entries : (Home.reset ms (Home.start b made get)).entries ≡ ms
  unfolding Home.handle_all
  reset_entries = let (c, e, d) = handle_all-reset b made get ms [] in e ∙ c

  -- What a change of the filter leaves: the fetched applications whose heading contains the value.
  abbrev pub filtered : LiveFilter Item → LiveFilter Item
  filtered f =
      let xs = elements content ms in
      record f {
        lis = map (shown_as lower (get ms) (lower f.value) (first_display xs)) xs;
        num_shown = length (found lower (get ms) (lower f.value) xs);
        results = some (found lower (get ms) (lower f.value) xs);
      }

  -- After one fetch and any events of the page but another fetch and clicks on the entries, the
  -- entries are the fetched applications and then in turn those of the saved forms, unless an
  -- application before has the identifier. The filter's value is the terminal's, and a change
  -- displays exactly the fetched applications whose heading contains it, both folded: no application
  -- that was added later is displayed, hidden or counted by it.
  pub snapshot :
      (v : Text) (es : List Event)
      → NoFetch es
      → let p =
          handle_all b made lower content get es
            (fetch_done b made lower content get ms (initialize b made lower content get v)) in
        (p.home.entries ≡ joined b made get ms (saved (home_events es)))
        × (f : LiveFilter Item) × (p.filter ≡ some f)
        × (f.value ≡ p.terminal.value)
        × (Filter.change lower (get ms) f ≡ filtered f)
  unfolding fetch_done initialize Terminal.handle
  snapshot v es n =
      let r = Home.reset ms (Home.start b made get) in
      let t = Terminal.handle Terminal.bound (Terminal.initial v) in
      let f0 = Filter.start lower (get ms) (elements content ms) v in
      let f = Filter.handle_all lower (get ms) (filter_events es) f0 in
      let starts =
        ap (λ hs. together r (Filter.start lower (get ms) (elements content hs) v) t)
          reset_entries in
      let e =
        ap (handle_all b made lower content get es) starts ∙ handle_all-together es r f0 t n in
      let (c, d, _) = handle_all-reset b made get ms (home_events es) in
      (
        ap (λ p. p.home.entries) e ∙ d ∙ c,
        f,
        ap (λ p. p.filter) e,
        values es f0 t n (value-start lower (get ms) (elements content ms) v)
            ∙ sym (ap (λ p. p.terminal.value) e),
        change-handle_all lower (get ms) (elements content ms) v (filter_events es)
            (alike_first content ms),
      )
