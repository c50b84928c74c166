-- ===== src/Carousel/Invariant.antt =====
-- What holds of a carousel between two events.
use base_service.Base.{
  ℕ, ◌<◌, ◌≡◌, refl, sym, subst, ◌⊎◌, inl, inr, Bool, true, false, ◌||◌, Option, none, some, List,
  [], ◌∷◌, arith, ◌==◌, if◌then◌else◌, Bool-cases,
}
use base_service.Base.Int.{offset}
use base_service.Browser.{Intervals, contains, set_interval}
use base_service.Carousel.{
  Config, Animation, Carousel, parsed, auto, init, fields, init_view, animation_to, auto_run,
  stop_run, change, change_to, run, complete, finish, click, elapse, Event, clicked, entered,
  leaving, finished, elapsed, handle, handle_all, create,
}
use base_service.Carousel.Offsets.{animation_to-offset}
use base_service.Carousel.Marks.{unmarked, marked, set-marked, set-set-unmarked}

-- The animation ends at the offset of its item, or at the clone of the first item behind the last.
abbrev pub Arrives : Config → Animation → Type 0
Arrives o a =
    ((a.wraps ≡ false) × (a.target ≡ offset a.index o.width))
    ⊎ ((a.wraps ≡ true) × (a.target ≡ offset o.num o.width) × (a.index ≡ 0))

pub data Motion (c : Carousel) : Type 0 where
  rest : c.free ≡ true → c.animation ≡ none → parsed c.left ≡ offset c.now c.config.width → Motion c
  moving :
      (a : Animation)
      → c.free ≡ false
      → c.animation ≡ some a
      → a.index < c.config.num
      → Arrives c.config a
      → Motion c

-- At rest the view shows item `now`, in motion it goes to an item; the switch of `now` alone is
-- marked.
pub record IsValid (c : Carousel) : Type 0 where
  pub wide : 0 < c.config.width
  pub now_lt : c.now < c.config.num
  pub marks : c.on ≡ marked c.config.num c.now
  pub motion : Motion c

-- The switches that can be clicked are those of the page.
abbrev pub Allowed : Config → Event → Type 0
Allowed o (clicked f) = f < o.num
Allowed o _ = Unit

pub animation_to-Arrives :
    (o : Config) (now h : ℕ)
    → 0 < o.width
    → 0 < o.num
    → Arrives o (animation_to o now h (offset now o.width))
      × ((animation_to o now h (offset now o.width)).index ≡ h)
animation_to-Arrives o now h pw pn = rw (animation_to-offset o now h pw pn) (ground arith)

-- The early return of `changeTo`.
abbrev pub ignored : ℕ → Carousel → Bool
ignored h c = c.now == h || (if c.free then false else true)

pub change_to-ignored : (h : ℕ) (c : Carousel) → ignored h c ≡ true → change_to h c ≡ c
unfolding change_to
change_to-ignored h c e = rw e

pub change_to_started :
    (h : ℕ) (c : Carousel)
    → ignored h c ≡ false
    → change_to h c
      ≡ record c { free = false; animation = some (animation_to c.config c.now h (parsed c.left)) }
unfolding change_to
change_to_started h c e = rw e

-- An accepted `changeTo` finds the carousel at rest.
pub ignored_rest :
    (h : ℕ) (c : Carousel)
    → ignored h c ≡ false
    → Motion c
    → parsed c.left ≡ offset c.now c.config.width
ignored_rest h c e (rest f a l) = l
ignored_rest h c e (moving a f s lt arr) = ground arith

change_to-IsValid : (h : ℕ) (c : Carousel) → h < c.config.num → IsValid c → IsValid (change_to h c)
change_to-IsValid h c lt v = elim (Bool-cases (ignored h c)) [
  | inl e ↦ rw (change_to-ignored h c e) v
  | inr e ↦
      let at = ignored_rest h c e v.motion in
      let (arr, ix) = animation_to-Arrives c.config c.now h v.wide (omega arith) in
      rw (change_to_started h c e) (record {
        wide = v.wide;
        now_lt = v.now_lt;
        marks = v.marks;
        motion =
            moving (animation_to c.config c.now h (parsed c.left)) refl refl (rw at (rw ix lt))
              (rw at arr);
      })
]

complete-IsValid :
    (a : Animation) (c : Carousel)
    → a.index < c.config.num
    → Arrives c.config a
    → IsValid c
    → IsValid (complete a c)
unfolding complete
complete-IsValid a c lt arr v = record {
  wide = v.wide;
  now_lt = lt;
  marks = rw v.marks (set-marked c.config.num c.now a.index);
  motion = rest refl refl (ground arith);
}

pub finish-IsValid : (c : Carousel) → IsValid c → IsValid (finish c)
finish-IsValid c v = by_motion v.motion
  where
    by_motion : Motion c → IsValid (finish c)
    by_motion (rest f e l) = let same : finish c ≡ c = unfold finish in rw e in rw same v
    by_motion (moving a f e lt arr) =
        let done : finish c ≡ complete a c = unfold finish in rw e in
        rw done (complete-IsValid a c lt arr v)

-- The interval and its handle are no part of the invariant.
set_timer-IsValid :
    (c : Carousel) (t : Option ℕ) (w : Intervals)
    → IsValid c
    → IsValid (record c { tm = t; intervals = w })
set_timer-IsValid c t w v = record {
  wide = v.wide;
  now_lt = v.now_lt;
  marks = v.marks;
  motion = same v.motion;
}
  where
    same : Motion c → Motion (record c { tm = t; intervals = w })
    same (rest f e l) = rest f e l
    same (moving a f e lt arr) = moving a f e lt arr

auto_run-IsValid : (c : Carousel) → IsValid c → IsValid (auto_run c)
unfolding auto_run
auto_run-IsValid c v = elim (Bool-cases c.config.auto) [
  | inl e ↦ simp e (set_timer-IsValid c (some c.intervals.next) (set_interval c.intervals) v)
  | inr e ↦ simp e v
]

stop_run-IsValid : (c : Carousel) → IsValid c → IsValid (stop_run c)
unfolding stop_run
stop_run-IsValid c v = set_timer-IsValid c _ _ v

pub run-IsValid : (c : Carousel) → IsValid c → IsValid (run c)
unfolding run
run-IsValid c v = change_to-IsValid _ c (ground (arith, v.now_lt)) v

elapse-IsValid : (k : ℕ) (c : Carousel) → IsValid c → IsValid (elapse k c)
unfolding elapse
elapse-IsValid k c v = elim (Bool-cases (contains c.intervals.live k)) [
  | inl e ↦ rw e (run-IsValid c v)
  | inr e ↦ rw e v
]

-- Every event keeps the invariant; a clicked switch is one of the page's.
pub handle-IsValid :
    (e : Event) (c : Carousel) → Allowed c.config e → IsValid c → IsValid (handle e c)
unfolding handle click
handle-IsValid (clicked f) c ok v =
    auto_run-IsValid _ (stop_run-IsValid _ (change_to-IsValid f c ok v))
handle-IsValid entered c ok v = stop_run-IsValid c v
handle-IsValid leaving c ok v = auto_run-IsValid c v
handle-IsValid finished c ok v = finish-IsValid c v
handle-IsValid (elapsed k) c ok v = elapse-IsValid k c v

pub config-handle : (e : Event) (c : Carousel) → (handle e c).config ≡ c.config
unfolding handle change_to
config-handle (clicked f) c = ground arith
config-handle entered c = refl
config-handle leaving c = ground arith
config-handle finished c = ground arith
config-handle (elapsed k) c = ground arith

abbrev pub AllAllowed : Config → List Event → Type 0
AllAllowed o [] = Unit
AllAllowed o (e ∷ es) = Allowed o e × AllAllowed o es

-- After any session from a carousel that satisfies the invariant, the invariant holds.
pub handle_all-IsValid :
    (es : List Event) (c : Carousel)
    → AllAllowed c.config es
    → IsValid c
    → IsValid (handle_all es c)
unfolding handle_all
handle_all-IsValid [] c ok v = v
handle_all-IsValid (e ∷ es) c ok v =
    handle_all-IsValid es (handle e c) (subst (λ o. AllAllowed o es) (sym (config-handle e c)) ok.1)
      (handle-IsValid e c ok.0 v)

-- A carousel before the last step of `init`.
record IsFresh (c : Carousel) : Type 0 where
  wide : 0 < c.config.width
  some_switch : 0 < c.config.num
  off : c.on ≡ unmarked c.config.num
  at_start : c.now ≡ 0
  is_free : c.free ≡ true
  still : c.animation ≡ none
  unmoved : c.left ≡ auto

init_view-IsFresh : (c : Carousel) → IsFresh c → IsFresh (init_view c)
unfolding init_view
init_view-IsFresh c f = ground arith

auto_run-IsFresh : (c : Carousel) → IsFresh c → IsFresh (auto_run c)
unfolding auto_run
auto_run-IsFresh c f = ground arith

change-IsFresh : (c : Carousel) → IsFresh c → IsValid (change c.now c)
unfolding change
change-IsFresh c f = record {
  wide = f.wide;
  now_lt = rw f.at_start f.some_switch;
  marks = rw f.off (set-set-unmarked c.config.num c.now c.now);
  motion = rest f.is_free f.still (ground arith);
}

init-IsFresh : (c : Carousel) → IsFresh c → IsValid (init c)
unfolding init
init-IsFresh c f = change-IsFresh _ (auto_run-IsFresh _ (init_view-IsFresh c f))

-- A new carousel over switches of which none is marked satisfies the invariant.
pub create-IsValid :
    (o : Config) (images : List ℕ) (w : Intervals)
    → 0 < o.width
    → 0 < o.num
    → IsValid (create o images (unmarked o.num) w)
unfolding create
create-IsValid o images w pw pn = init-IsFresh (fields o images (unmarked o.num) w) (record {
  wide = pw;
  some_switch = pn;
  off = refl;
  at_start = refl;
  is_free = refl;
  still = refl;
  unmoved = refl;
})
