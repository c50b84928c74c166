-- ===== src/Carousel/Session.antt =====
-- The carousel from its construction on.
use base_service.Base.{
  zero, suc, ◌+◌, ◌%◌, ap, ◌∙◌, refl, Bool, true, [], ◌∷◌, ==_refl, ℕ, ◌≡◌, ◌<◌, sym, subst, List,
  arith,
}
use base_service.Browser.{Intervals, contains}
use base_service.Carousel.{
  Config, Carousel, Event, init, init_view, auto_run, change, fields, create, elapsed, finished,
  handle, handle_all,
}
use base_service.Carousel.Cycle.{turn, turns, intervals-turn, finish-elapse, now-turns}
use base_service.Carousel.Marks.{unmarked}
use base_service.Carousel.Invariant.{AllAllowed, IsValid, create-IsValid, handle_all-IsValid}

config-init : (c : Carousel) → (init c).config ≡ c.config
unfolding init
config-init c = ground arith

pub config-create :
    (o : Config) (images : List ℕ) (w : Intervals) → (create o images (unmarked o.num) w).config ≡ o
unfolding create
config-create o images w = config-init (fields o images (unmarked o.num) w)

-- After any list of events in which only switches of the page are clicked, from the construction
-- over switches of which none is marked, the invariant holds: the current item is in range, its
-- switch alone is marked, and the view stands at the offset of the current item or an animation goes
-- to the offset of an item or to the clone behind the last.
pub handle_all-create :
    (o : Config) (images : List ℕ) (w : Intervals) (es : List Event)
    → 0 < o.width
    → 0 < o.num
    → AllAllowed o es
    → IsValid (handle_all es (create o images (unmarked o.num) w))
handle_all-create o images w es pw pn ok =
    handle_all-IsValid es (create o images (unmarked o.num) w)
      (subst (λ p. AllAllowed p es) (sym (config-create o images w)) ok)
      (create-IsValid o images w pw pn)

-- The interval, and each time the end of the animation after it.
abbrev pub rounds : ℕ → ℕ → List Event
rounds k zero = []
rounds k (suc n) = elapsed k ∷ finished ∷ rounds k n

handle_all-rounds :
    (k n : ℕ) (c : Carousel)
    → contains c.intervals.live k ≡ true
    → handle_all (rounds k n) c ≡ turns n c
unfolding handle_all handle turns
handle_all-rounds k zero c e = refl
handle_all-rounds k (suc n) c e =
    ap (handle_all (rounds k n)) (finish-elapse k c e)
    ∙ handle_all-rounds k n (turn c) (ap (λ w. contains w.live k) (intervals-turn c) ∙ e)

-- The interval of a new carousel.
create-interval :
    (o : Config) (images : List ℕ) (on : List Bool) (w : Intervals)
    → o.auto ≡ true
    → contains (create o images on w).intervals.live w.next ≡ true
unfolding create init init_view auto_run change
create-interval o [] on w e = ground (arith, ==_refl w.next)
create-interval o (i ∷ images) on w e = ground (arith, ==_refl w.next)

create_rest :
    (o : Config) (images : List ℕ) (on : List Bool) (w : Intervals)
    → ((create o images on w).now ≡ 0) × ((create o images on w).free ≡ true)
unfolding create init init_view auto_run change
create_rest o [] on w = ground arith
create_rest o (i ∷ images) on w = ground arith

-- A new carousel with auto, over switches of which none is marked, shows item n, counted round the
-- end, after its interval has elapsed n times, each time with the end of the animation after it.
pub now-rounds :
    (o : Config) (images : List ℕ) (w : Intervals) (n : ℕ)
    → 0 < o.width
    → 0 < o.num
    → o.auto ≡ true
    → (handle_all (rounds w.next n) (create o images (unmarked o.num) w)).now ≡ n % o.num
now-rounds o images w n pw pn a =
    let c = create o images (unmarked o.num) w in
    let (at, free) = create_rest o images (unmarked o.num) w in
    ap Carousel.now (handle_all-rounds w.next n c (create-interval o images (unmarked o.num) w a))
    ∙ now-turns n c (create-IsValid o images w pw pn) free
    ∙ ap (λ (k : ℕ). (k + n) % c.config.num) at
    ∙ ap (λ q. (0 + n) % Config.num q) (config-create o images w)
    ∙ ap (λ k. k % o.num) (omega arith)
