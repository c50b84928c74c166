-- ===== src/Carousel/Plugin.antt =====
-- `$.fn.crImgScrollW`, which makes a carousel for an element of the page and keeps it as the
-- element's data.
use base_service.Base.{
  ℕ, ◌+◌, ◌≡◌, refl, ap, ◌∙◌, Bool, true, false, Option, none, some, List, [], ◌∷◌, ◌++◌, arith,
}
use base_service.Browser.{Intervals as Scheduled, contains, set_interval, clear_interval}
use base_service.Browser.Contains.{contains-remove_same}
use base_service.Browser.Sharing.{contains-clear_interval}
use base_service.Carousel.{
  Config, Carousel, Left, fields, init, init_view, auto_run, change, stop_run,
}

-- What a carousel finds in its element, and the one that the element keeps.
record Element : Type 0 where
  images : List ℕ
  left : Left
  classes : List Bool
  widget : Option Carousel

-- `removeData` and `data`: the element forgets the carousel that it kept, and nothing else is done
-- to that.
attach : Config → Scheduled → Element → Element × Scheduled
unfolding init
attach o w e =
    let c = init (record (fields o e.images e.classes w) { left = e.left }) in
    (record { images = c.strip; left = c.left; classes = c.on; widget = some c }, c.intervals)

-- `stopRun` of the carousel that an element keeps.
stop_widget : Element → Scheduled → Scheduled
stop_widget e w = elim e.widget [
  | none ↦ w
  | some c ↦ (stop_run (record c { intervals = w })).intervals
]

init_view_fields :
    (c : Carousel) (i : ℕ) (is : List ℕ)
    → c.strip ≡ i ∷ is
    → ((init_view c).strip ≡ c.strip ++ i ∷ [])
      × ((init_view c).intervals ≡ c.intervals)
      × ((init_view c).config ≡ c.config)
unfolding init_view
init_view_fields c i is m = ground arith

init_fields :
    (c : Carousel) (i : ℕ) (is : List ℕ)
    → c.config.auto ≡ true
    → c.strip ≡ i ∷ is
    → ((init c).strip ≡ c.strip ++ i ∷ [])
      × ((init c).tm ≡ some c.intervals.next)
      × ((init c).intervals ≡ set_interval c.intervals)
unfolding init auto_run change
init_fields c i is a m = let v = init_view_fields c i is m in ground (arith, v)

attach_fields :
    (o : Config) (w : Scheduled) (e : Element) (i : ℕ) (is : List ℕ)
    → o.auto ≡ true
    → e.images ≡ i ∷ is
    → ((attach o w e).0.images ≡ e.images ++ i ∷ [])
      × ((attach o w e).1 ≡ set_interval w)
      × ((c : Carousel) × ((attach o w e).0.widget ≡ some c) × (c.tm ≡ some w.next))
unfolding attach
attach_fields o w e i is a m =
    let c = record (fields o e.images e.classes w) { left = e.left } in
    let f = init_fields c i is a m in (f.0, f.2, (init c, refl, f.1))

stop_widget_kept :
    (e : Element) (c : Carousel) (k : ℕ) (w : Scheduled)
    → e.widget ≡ some c
    → c.tm ≡ some k
    → stop_widget e w ≡ clear_interval (some k) w
unfolding stop_widget stop_run
stop_widget_kept e c k w q t = rw q (ap (λ o. clear_interval o w) t)

-- Of two intervals that were set one after the other, the second is cleared.
second_cleared :
    (w : Scheduled)
    → let v = set_interval w in
      let u = clear_interval (some v.next) (set_interval v) in
      (contains u.live w.next ≡ true) × (contains u.live v.next ≡ false)
second_cleared w = (
  contains-clear_interval (some (w.next + 1)) (set_interval (set_interval w)) w.next
        (λ q. ground arith)
      ∙ ground arith,
  contains-remove_same (w.next + 1) (set_interval (set_interval w)).live,
)

-- With `auto`, a carousel that is attached again to an element with images leaves the first one's
-- interval scheduled, and a further clone of the first image in the view: stopping the carousel
-- that the element keeps does not stop the other.
attach-attach :
    (o : Config) (w : Scheduled) (e : Element) (i : ℕ) (is : List ℕ)
    → o.auto ≡ true
    → e.images ≡ i ∷ is
    → let (e1, w1) = attach o w e in
      let (e2, w2) = attach o w1 e1 in
      (e2.images ≡ i ∷ is ++ i ∷ [] ++ i ∷ [])
      × (contains (stop_widget e2 w2).live w.next ≡ true)
      × (contains (stop_widget e2 w2).live w1.next ≡ false)
attach-attach o w e i is a m =
    let f = attach_fields o w e i is a m in
    let (e1, w1) = attach o w e in
    let g = attach_fields o w1 e1 i (is ++ i ∷ []) a (f.0 ∙ ap (λ xs. xs ++ i ∷ []) m) in
    let (c, kept, tm) = g.2 in
    let stopped : stop_widget (attach o w1 e1).0 (attach o w1 e1).1
        ≡ clear_interval (some (w.next + 1)) (set_interval (set_interval w)) =
      stop_widget_kept (attach o w1 e1).0 c w1.next (attach o w1 e1).1 kept tm
      ∙ ap (clear_interval (some w1.next)) g.1
      ∙ ap (λ v. clear_interval (some (Scheduled.next v)) (set_interval v)) f.1 in
    (
      g.0 ∙ ap (λ xs. xs ++ i ∷ []) (f.0 ∙ ap (λ xs. xs ++ i ∷ []) m),
      ap (λ v. contains (Scheduled.live v) w.next) stopped ∙ (second_cleared w).0,
      ap (λ v. contains (stop_widget (attach o w1 e1).0 (attach o w1 e1).1).live (Scheduled.next v))
            f.1
          ∙ ap (λ v. contains (Scheduled.live v) (w.next + 1)) stopped
          ∙ (second_cleared w).1,
    )
