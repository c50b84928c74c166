-- ===== src/Carousel/Intervals.antt =====
-- How many intervals a carousel has scheduled, on a page where it alone schedules any.
use base_service.Base.{
  ℕ, ◌+◌, ◌≡◌, ◌∙◌, ap, Bool, true, false, some, List, [], ◌∷◌, arith, ◌==◌, if◌then◌else◌, length,
  ==_refl, ==_ne,
}
use base_service.Browser.{Intervals}
use base_service.Carousel.{
  Config, Carousel, init, init_view, change, create, auto_run, stop_run, change_to, run, finish,
  click, elapse, Event, clicked, entered, leaving, finished, elapsed, handle, handle_all,
}
use base_service.Carousel.Invariant.{config-handle}

-- The pointer enters and leaves the view in turn, and clicks no switch while it is inside.
abbrev pub Ordered : Bool → List Event → Type 0
Ordered inside [] = Unit
Ordered inside (finished ∷ es) = Ordered inside es
Ordered inside (elapsed _ ∷ es) = Ordered inside es
Ordered false (clicked f ∷ es) = Ordered false es
Ordered true (clicked f ∷ es) = ⊥
Ordered false (entered ∷ es) = Ordered true es
Ordered true (entered ∷ es) = ⊥
Ordered true (leaving ∷ es) = Ordered false es
Ordered false (leaving ∷ es) = ⊥

-- Where the pointer is after the events.
abbrev pub inside_after : Bool → List Event → Bool
inside_after inside [] = inside
inside_after inside (entered ∷ es) = inside_after true es
inside_after inside (leaving ∷ es) = inside_after false es
inside_after inside (_ ∷ es) = inside_after inside es

-- Nothing is scheduled while the pointer is inside, and outside the handle alone is.
abbrev pub IsTidy : Bool → Carousel → Type 0
IsTidy true c = c.intervals.live ≡ []
IsTidy false c = (k : ℕ) × (c.tm ≡ some k) × (c.intervals.live ≡ k ∷ [])

pub change_to_intervals :
    (h : ℕ) (c : Carousel)
    → ((change_to h c).intervals ≡ c.intervals)
      × ((change_to h c).tm ≡ c.tm)
      × ((change_to h c).config ≡ c.config)
unfolding change_to
change_to_intervals h c = ground arith

pub elapse_intervals :
    (k : ℕ) (c : Carousel) → ((elapse k c).intervals ≡ c.intervals) × ((elapse k c).tm ≡ c.tm)
unfolding elapse run
elapse_intervals k c =
    ground (arith, change_to_intervals (if c.now + 1 == c.config.num then 0 else c.now + 1) c)

pub finish_intervals :
    (c : Carousel) → ((finish c).intervals ≡ c.intervals) × ((finish c).tm ≡ c.tm)
unfolding finish
finish_intervals c = ground arith

IsTidy-same :
    (i : Bool) (c d : Carousel) → d.intervals ≡ c.intervals → d.tm ≡ c.tm → IsTidy i c → IsTidy i d
IsTidy-same true c d p q h = cc
IsTidy-same false c d p q (k, t, l) = (k, q ∙ t, cc)

auto_run-IsTidy :
    (c : Carousel) → c.config.auto ≡ true → c.intervals.live ≡ [] → IsTidy false (auto_run c)
unfolding auto_run
auto_run-IsTidy c a l = (c.intervals.next, ground arith, ground arith)

stop_run-IsTidy : (c : Carousel) → IsTidy false c → (stop_run c).intervals.live ≡ []
unfolding stop_run
stop_run-IsTidy c (k, t, l) = ground (arith, ==_refl k)

click-IsTidy :
    (f : ℕ) (c : Carousel) → c.config.auto ≡ true → IsTidy false c → IsTidy false (click f c)
unfolding click
click-IsTidy f c a h =
    let (p, q, o) = change_to_intervals f c in
    let still = IsTidy-same false c (change_to f c) p q h in
    let a' : (stop_run (change_to f c)).config.auto ≡ true = unfold stop_run in ground arith in
    auto_run-IsTidy (stop_run (change_to f c)) a' (stop_run-IsTidy (change_to f c) still)

auto-handle : (e : Event) (c : Carousel) → c.config.auto ≡ true → (handle e c).config.auto ≡ true
auto-handle e c a = ap Config.auto (config-handle e c) ∙ a

-- With `auto`, over events in this order: one interval is scheduled while the pointer is outside,
-- none while it is inside.
handle_all-IsTidy :
    (i : Bool) (es : List Event) (c : Carousel)
    → c.config.auto ≡ true
    → Ordered i es
    → IsTidy i c
    → IsTidy (inside_after i es) (handle_all es c)
unfolding handle_all handle
handle_all-IsTidy i [] c a o h = h
handle_all-IsTidy false (clicked f ∷ es) c a o h =
    handle_all-IsTidy false es (click f c) (auto-handle (clicked f) c a) o (click-IsTidy f c a h)
handle_all-IsTidy true (clicked f ∷ es) c a o h = elim o [ ]
handle_all-IsTidy false (entered ∷ es) c a o h =
    handle_all-IsTidy true es (stop_run c) (auto-handle entered c a) o (stop_run-IsTidy c h)
handle_all-IsTidy true (entered ∷ es) c a o h = elim o [ ]
handle_all-IsTidy false (leaving ∷ es) c a o h = elim o [ ]
handle_all-IsTidy true (leaving ∷ es) c a o h =
    handle_all-IsTidy false es (auto_run c) (auto-handle leaving c a) o (auto_run-IsTidy c a h)
handle_all-IsTidy i (finished ∷ es) c a o h =
    let (p, q) = finish_intervals c in
    handle_all-IsTidy i es (finish c) (auto-handle finished c a) o
      (IsTidy-same i c (finish c) p q h)
handle_all-IsTidy i (elapsed k ∷ es) c a o h =
    let (p, q) = elapse_intervals k c in
    handle_all-IsTidy i es (elapse k c) (auto-handle (elapsed k) c a) o
      (IsTidy-same i c (elapse k c) p q h)

count_live : (j : Bool) (d : Carousel) → IsTidy j d → length d.intervals.live ≡ (if j then 0 else 1)
count_live true d h = rw h
count_live false d (k, t, l) = rw l

create-IsTidy :
    (o : Config) (images : List ℕ) (on : List Bool) (w : Intervals)
    → o.auto ≡ true
    → w.live ≡ []
    → IsTidy false (create o images on w)
unfolding create init init_view auto_run change
create-IsTidy o [] on w a l = (w.next, ground arith, ground arith)
create-IsTidy o (i ∷ is) on w a l = (w.next, ground arith, ground arith)

create-auto :
    (o : Config) (images : List ℕ) (on : List Bool) (w : Intervals)
    → o.auto ≡ true
    → (create o images on w).config.auto ≡ true
unfolding create init init_view auto_run change
create-auto o [] on w a = ground arith
create-auto o (i ∷ is) on w a = ground arith

-- With `auto`, on a page on which no interval was scheduled before the construction and the carousel
-- alone schedules any: from the construction on, when the pointer enters and leaves the view in turn
-- and switches are clicked only while it is outside, exactly one interval is scheduled while it is
-- outside, and none while it is inside.
pub live-handle_all :
    (o : Config) (images : List ℕ) (on : List Bool) (w : Intervals) (es : List Event)
    → o.auto ≡ true
    → w.live ≡ []
    → Ordered false es
    → length (handle_all es (create o images on w)).intervals.live
      ≡ (if inside_after false es then 0 else 1)
live-handle_all o images on w es a l h =
    let c = create o images on w in
    count_live (inside_after false es) (handle_all es c) (
      handle_all-IsTidy false es c (create-auto o images on w a) h
        (create-IsTidy o images on w a l))

auto_run_fields :
    (c : Carousel)
    → c.config.auto ≡ true
    → ((auto_run c).tm ≡ some c.intervals.next)
      × ((auto_run c).intervals.live ≡ c.intervals.next ∷ c.intervals.live)
      × ((auto_run c).intervals.next ≡ c.intervals.next + 1)
      × ((auto_run c).config ≡ c.config)
unfolding auto_run
auto_run_fields c a = ground arith

stop_run_last :
    (k : ℕ) (c : Carousel)
    → c.tm ≡ some (k + 1)
    → c.intervals.live ≡ (k + 1) ∷ k ∷ []
    → (stop_run c).intervals.live ≡ k ∷ []
unfolding stop_run
stop_run_last k c t l = ground (arith, ==_refl (k + 1), ==_ne k (k + 1))

stop_run_none :
    (c : Carousel)
    → c.intervals.live ≡ []
    → ((stop_run c).intervals.live ≡ [])
      × ((stop_run c).intervals.next ≡ c.intervals.next)
      × ((stop_run c).config ≡ c.config)
unfolding stop_run
stop_run_none c l = ground arith

-- What a click leaves when nothing was scheduled.
click_fields :
    (f : ℕ) (c : Carousel)
    → c.config.auto ≡ true
    → c.intervals.live ≡ []
    → let d = click f c in
      (d.intervals.live ≡ c.intervals.next ∷ []) × (d.intervals.next ≡ c.intervals.next + 1)
unfolding click
click_fields f c a l =
    let (p, t, o) = change_to_intervals f c in
    let (live, next, o') = stop_run_none (change_to f c) (cc) in
    let (t', live', next', o'') = auto_run_fields (stop_run (change_to f c)) (cc) in (cc, cc)

-- A click while the pointer is inside schedules an interval, and leaving schedules another one over
-- its handle: when the pointer enters again, one of the two goes on.
pub click_inside_leaks :
    (f : ℕ) (c : Carousel)
    → c.config.auto ≡ true
    → IsTidy false c
    → length (handle_all (entered ∷ clicked f ∷ leaving ∷ entered ∷ []) c).intervals.live ≡ 1
unfolding handle_all handle
click_inside_leaks f c a h =
    let c1 = stop_run c in
    let c2 = click f c1 in
    let (live2, next2) = click_fields f c1 (auto-handle entered c a) (stop_run-IsTidy c h) in
    let (tm3, live3, next3, same) =
      auto_run_fields c2 (auto-handle (clicked f) c1 (auto-handle entered c a)) in
    let last =
      stop_run_last c1.intervals.next (auto_run c2) (tm3 ∙ ap some next2)
        (live3 ∙ cc (live2, next2)) in
    rw last
