-- ===== src/Carousel/Show.antt =====
-- A carousel as its user takes it: the current item, the item that it moves to, and the interval.
-- It has no offsets, no animations, no classes and no flag.
use base_service.Base.{ℕ, ◌+◌, Bool, Option, none, some, List, [], ◌∷◌, ◌==◌, if◌then◌else◌}
use base_service.Base.Int.{ℤ, offset}
use base_service.Browser.{Intervals, contains, set_interval, clear_interval}
use base_service.Carousel.{
  Config, Carousel, Event, clicked, entered, leaving, finished, elapsed, parsed,
}
use base_service.Carousel.Marks.{marked}

pub record Show : Type 0 where
  pub current : ℕ
  pub going : Option ℕ
  pub handle : Option ℕ
  pub scheduled : Intervals

-- Only a show at rest sets out, and not for the item that it shows.
abbrev pub go : ℕ → Show → Show
go h s = elim s.going [
  | none ↦ if s.current == h then s else record s { going = some h }
  | some _ ↦ s
]

abbrev pub arrive : Show → Show
arrive s = elim s.going [ none ↦ s | some h ↦ record s { current = h; going = none } ]

abbrev pub schedule : Config → Show → Show
schedule o s =
    if o.auto
    then record s { handle = some s.scheduled.next; scheduled = set_interval s.scheduled }
    else s

abbrev pub unschedule : Show → Show
unschedule s = record s { scheduled = clear_interval s.handle s.scheduled }

abbrev pub next_of : Config → ℕ → ℕ
next_of o i = if i + 1 == o.num then 0 else i + 1

unfoldable pub perform : Config → Event → Show → Show
perform o (clicked f) s = schedule o (unschedule (go f s))
perform o entered s = unschedule s
perform o leaving s = schedule o s
perform o finished s = arrive s
perform o (elapsed k) s = if contains s.scheduled.live k then go (next_of o s.current) s else s

unfoldable pub perform_all : Config → List Event → Show → Show
perform_all o [] s = s
perform_all o (e ∷ es) s = perform_all o es (perform o e s)

-- The first item is shown, and the interval is set.
unfoldable pub begin : Config → Intervals → Show
begin o w = schedule o (record { current = 0; going = none; handle = none; scheduled = w })

-- What the page shows: where the view stands, which is open while it moves, and the classes of the
-- switches.
pub record View : Type 0 where
  pub place : Option ℤ
  pub classes : List Bool

abbrev pub displayed : Config → Show → View
displayed o s = record {
  place = elim s.going [ none ↦ some (offset s.current o.width) | some _ ↦ none ];
  classes = marked o.num s.current;
}

abbrev pub observed : Carousel → View
observed c = record { place = if c.free then some (parsed c.left) else none; classes = c.on }

-- The show that a carousel stands for.
abbrev pub show_of : Carousel → Show
show_of c = record {
  current = c.now;
  going = elim c.animation [ none ↦ none | some a ↦ some a.index ];
  handle = c.tm;
  scheduled = c.intervals;
}
