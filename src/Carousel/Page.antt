-- ===== src/Carousel/Page.antt =====
-- A carousel and a timer on one page. The events allow any identifier to elapse for either of them,
-- which is more than the browser does.
use base_service.Base.{ℕ, ◌<◌, ◌≡◌, ◌⊎◌, inl, inr, Bool, Option, some, List, [], ◌∷◌, map, arith}
use base_service.Browser.{Intervals, contains}
use base_service.Browser.Sharing.{
  Page, act_all, AreApart, act_all-AreApart, live-lefts, live-rights,
}
use base_service.Timer
use base_service.Timer.{Timer}
use base_service.Timer.Sharing.{Action, timer_user}
use base_service.Carousel.{Config, Carousel, Event, create, init, init_view, auto_run, change}
use base_service.Carousel.Sharing.{carousel_user}

-- A new carousel, and a timer made after it.
abbrev pub opened : Config → List ℕ → List Bool → ℕ → Option ℕ → Intervals → Page Carousel Timer
opened o images on delay limit w =
    let c = create o images on w in
    record { left = c; right = Timer.create delay limit c.intervals; shared = c.intervals }

tm-create :
    (o : Config) (images : List ℕ) (on : List Bool) (w : Intervals) (k : ℕ)
    → (create o images on w).tm ≡ some k
    → k < (create o images on w).intervals.next
unfolding create init init_view auto_run change
tm-create o [] on w k q = ground (arith, q)
tm-create o (i ∷ images) on w k q = ground (arith, q)

opened-AreApart :
    (o : Config) (images : List ℕ) (on : List Bool) (delay : ℕ) (limit : Option ℕ) (w : Intervals)
    → AreApart carousel_user timer_user (opened o images on delay limit w)
unfolding carousel_user timer_user
opened-AreApart o images on delay limit w = record {
  left_below = tm-create o images on w;
  right_below = λ k q. absurd (cc (q));
  apart = λ k q r. absurd (cc (r));
}

-- The page after events of both, in any order.
abbrev pub after : List (Event ⊎ Action) → Page Carousel Timer → Page Carousel Timer
after es p = act_all carousel_user timer_user es p

-- A carousel and a timer that share the page's intervals, after any events of both in any order:
-- whatever is then done with the timer alone, the carousel's interval is scheduled if it was and
-- not if it was not; and so is the timer's, whatever happens to the carousel alone.
pub live-after :
    (o : Config) (images : List ℕ) (on : List Bool) (delay : ℕ) (limit : Option ℕ) (w : Intervals)
    (es : List (Event ⊎ Action)) (fs : List Event) (gs : List Action) (i j : ℕ)
    → (after es (opened o images on delay limit w)).left.tm ≡ some i
    → (after es (opened o images on delay limit w)).right.handle ≡ some j
    → let p = after es (opened o images on delay limit w) in
      (contains (after (map inr gs) p).shared.live i ≡ contains p.shared.live i)
      × (contains (after (map inl fs) p).shared.live j ≡ contains p.shared.live j)
live-after o images on delay limit w es fs gs i j q r =
    let p = opened o images on delay limit w in
    let h =
      act_all-AreApart carousel_user timer_user es p (opened-AreApart o images on delay limit w) in
    (
      live-rights carousel_user timer_user gs (after es p) i h (unfold carousel_user in q),
      live-lefts carousel_user timer_user fs (after es p) j h (unfold timer_user in r),
    )
