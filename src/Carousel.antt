-- ===== src/Carousel.antt =====
-- The image carousel `crImgScrollW` of
-- smc-base-server/src/main/webapp/js/tw.new.index.min.0.0.14.js. `init` builds the strip of images,
-- binds the switches and the hover, starts the interval and marks the first switch. The animation of
-- jQuery is a field that holds what it moves to and what its callback was given; its end is an event.
pub mod Offsets
pub mod Marks
pub mod Invariant
pub mod Cycle
pub mod Intervals
pub mod Strip
pub mod Session
pub mod Show
pub mod Refinement
pub mod Sharing
pub mod Page
mod Plugin
mod Examples
use base_service.Base.{
  ℕ, zero, suc, ◌+◌, Bool, true, false, ◌&&◌, ◌||◌, Option, none, some, List, [], ◌∷◌, ◌++◌, ◌==◌,
  if◌then◌else◌, set,
}
use base_service.Base.Int.{ℤ, pos, ◌+ℤ◌, ◌-ℤ◌, ◌*ℤ◌, ◌==ℤ◌}
use base_service.Browser.{Intervals as Scheduled, contains, set_interval, clear_interval}

-- The options that the carousel computes with; `num` is the number of switches.
pub record Config : Type 0 where
  pub auto : Bool
  pub width : ℕ
  pub num : ℕ

-- What the caller gives over the defaults; a missing option is `none`.
pub record Given : Type 0 where
  pub auto : Option Bool
  pub width : Option ℕ

abbrev pub or_default {ℓ} : {A : Type ℓ} → Option A → A → A
or_default none d = d
or_default (some a) d = a

pub configure : Given → ℕ → Config
configure g num = record {
  auto = or_default g.auto true;
  width = or_default g.width 400;
  num = num;
}

-- The style `left` of the view, in whole pixels.
pub data Left : Type 0 where
  auto : Left
  px : ℤ → Left

-- `"auto"` reads as 0, and `parseInt` takes the number before `px`.
abbrev pub parsed : Left → ℤ
parsed auto = pos 0
parsed (px z) = z

pub record Animation : Type 0 where
  pub target : ℤ
  pub wraps : Bool  -- `k`
  pub index : ℕ  -- `h`

pub record Carousel : Type 0 where
  pub config : Config
  pub strip : List ℕ  -- the images in the view, by number
  pub now : ℕ
  pub free : Bool  -- `t == 1`
  pub left : Left
  pub animation : Option Animation
  pub tm : Option ℕ
  pub on : List Bool  -- which switches have the class
  pub intervals : Scheduled

-- `_initView`: the clone of the first image, if there is one.
pub init_view : Carousel → Carousel
init_view c = elim c.strip [ [] ↦ c | i ∷ _ ↦ record c { strip = c.strip ++ i ∷ [] } ]

pub auto_run : Carousel → Carousel
auto_run c =
    if c.config.auto
    then record c { tm = some c.intervals.next; intervals = set_interval c.intervals }
    else c

pub stop_run : Carousel → Carousel
stop_run c = record c { intervals = clear_interval c.tm c.intervals }

-- `eq` of an index out of range is empty, and its class stays out of the page.
pub change : ℕ → Carousel → Carousel
change f c = record c { now = f; on = set (set c.on c.now false) f true }

-- The move to item `h` from the offset `g`.
pub animation_to : Config → ℕ → ℕ → ℤ → Animation
animation_to o now h g =
    let j = g +ℤ (pos now -ℤ pos h) *ℤ pos o.width in
    if j ==ℤ pos 0 && g ==ℤ (pos 0 -ℤ (pos o.num -ℤ pos 1)) *ℤ pos o.width
    then record { target = (pos 0 -ℤ pos o.num) *ℤ pos o.width; wraps = true; index = h }
    else record { target = j; wraps = false; index = h }

pub change_to : ℕ → Carousel → Carousel
change_to h c =
    if c.now == h || (if c.free then false else true)
    then c
    else record c { free = false; animation = some (animation_to c.config c.now h (parsed c.left)) }

pub run : Carousel → Carousel
unfolding change_to
run c = let f = c.now + 1 in change_to (if f == c.config.num then 0 else f) c

-- The end of an animation: jQuery has set `left`, and runs the callback.
complete : Animation → Carousel → Carousel
unfolding change
complete a c =
    let moved = record c { animation = none; left = if a.wraps then px (pos 0) else px a.target } in
    record (change a.index moved) { free = true }

pub finish : Carousel → Carousel
unfolding complete
finish c = elim c.animation [ none ↦ c | some a ↦ complete a c ]

pub click : ℕ → Carousel → Carousel
unfolding change_to stop_run auto_run
click f c = auto_run (stop_run (change_to f c))

-- The interval of identifier `k` elapses.
pub elapse : ℕ → Carousel → Carousel
unfolding run
elapse k c = if contains c.intervals.live k then run c else c

pub init : Carousel → Carousel
unfolding init_view auto_run change
init c = let c' = auto_run (init_view c) in change c'.now c'

pub data Event : Type 0 where
  clicked : ℕ → Event
  entered leaving finished : Event
  elapsed : ℕ → Event

pub handle : Event → Carousel → Carousel
unfolding click stop_run auto_run finish elapse
handle (clicked f) c = click f c
handle entered c = stop_run c
handle leaving c = auto_run c
handle finished c = finish c
handle (elapsed k) c = elapse k c

pub handle_all : List Event → Carousel → Carousel
handle_all [] c = c
handle_all (e ∷ es) c = handle_all es (handle e c)

-- The fields that the constructor sets, over images `images` and the switches' classes.
abbrev pub fields : Config → List ℕ → List Bool → Scheduled → Carousel
fields o images switches w = record {
  config = o;
  strip = images;
  now = 0;
  free = true;
  left = auto;
  animation = none;
  tm = none;
  on = switches;
  intervals = w;
}

pub create : Config → List ℕ → List Bool → Scheduled → Carousel
unfolding init
create o images switches w = init (fields o images switches w)
