-- ===== src/Carousel/Examples.antt =====
-- A carousel of three images 100 pixels wide, and the theorems at such inputs.
use base_service.Base.{◌%◌, inl, inr, map, ◌≡◌, refl, true, none, some, [], ◌∷◌, arith, length}
use base_service.Base.Int.{negsuc, ◌+ℤ◌, ◌-ℤ◌, ◌*ℤ◌}
use base_service.Browser.{no_intervals, contains}
use base_service.Carousel.{
  animation_to, Config, configure, Carousel, parsed, create, clicked, entered, leaving, finished,
  elapsed, click, finish, handle_all, handle,
}
use base_service.Carousel.Marks.{unmarked, marked}
use base_service.Carousel.Invariant.{IsValid, create-IsValid}
use base_service.Carousel.Cycle.{finish-click}
use base_service.Carousel.Intervals.{live-handle_all}
use base_service.Carousel.Show.{begin, perform_all, displayed, observed, show_of}
use base_service.Carousel.Refinement.{handle_all-perform_all}
use base_service.Browser.Sharing.{act_all, act}
use base_service.Timer.{start}
use base_service.Timer.Single.{stopped}
use base_service.Timer.Sharing.{started, commanded, timer_user}
use base_service.Carousel.Sharing.{carousel_user}
use base_service.Carousel.Page.{opened, after, live-after}
use base_service.Carousel.Session.{handle_all-create, rounds, now-rounds}

abbrev three : Config
three = record { auto = true; width = 100; num = 3 }

configured : configure (record { auto = none; width = some 100 }) 3 ≡ three
unfolding configure
configured = refl

abbrev shown : Carousel
shown = create three (7 ∷ 8 ∷ 9 ∷ []) (unmarked 3) no_intervals

shown-IsValid : IsValid shown
shown-IsValid = create-IsValid three (7 ∷ 8 ∷ 9 ∷ []) no_intervals (omega arith) (omega arith)

session : (handle_all (elapsed 1 ∷ clicked 2 ∷ finished ∷ []) shown).now ≡ 1
unfolding handle_all handle create animation_to ◌+ℤ◌ ◌-ℤ◌ ◌*ℤ◌
session = refl

handle_all-create_example :
    IsValid (handle_all (elapsed 1 ∷ clicked 2 ∷ finished ∷ clicked 0 ∷ []) shown)
handle_all-create_example =
    handle_all-create three (7 ∷ 8 ∷ 9 ∷ []) no_intervals
      (elapsed 1 ∷ clicked 2 ∷ finished ∷ clicked 0 ∷ []) (omega arith) (omega arith) (omega arith)

-- The last item is shown, and a click on the first wraps round.
wrapped : parsed (handle_all (clicked 2 ∷ finished ∷ clicked 0 ∷ []) shown).left ≡ negsuc 199
unfolding handle_all handle create animation_to ◌+ℤ◌ ◌-ℤ◌ ◌*ℤ◌
wrapped = refl

finish-click_example :
    let d = finish (handle_all (elapsed 1 ∷ clicked 1 ∷ []) (click 2 shown)) in
    (d.now ≡ 2) × (d.on ≡ marked 3 2) × (parsed d.left ≡ negsuc 199) × (d.free ≡ true)
unfolding create
finish-click_example =
    finish-click 2 (elapsed 1 ∷ clicked 1 ∷ []) shown shown-IsValid refl (omega arith) (omega arith)
      tt

live-handle_all_example :
    length (handle_all (clicked 1 ∷ entered ∷ elapsed 9 ∷ leaving ∷ []) shown).intervals.live ≡ 1
live-handle_all_example =
    live-handle_all three (7 ∷ 8 ∷ 9 ∷ []) (unmarked 3) no_intervals
      (clicked 1 ∷ entered ∷ elapsed 9 ∷ leaving ∷ []) refl refl tt

handle_all-perform_all_example :
    let es = elapsed 1 ∷ clicked 2 ∷ finished ∷ entered ∷ clicked 0 ∷ [] in
    (show_of (handle_all es shown) ≡ perform_all three es (begin three no_intervals))
    × (observed (handle_all es shown)
        ≡ displayed three (perform_all three es (begin three no_intervals)))
handle_all-perform_all_example =
    handle_all-perform_all three (7 ∷ 8 ∷ 9 ∷ []) no_intervals
      (elapsed 1 ∷ clicked 2 ∷ finished ∷ entered ∷ clicked 0 ∷ []) (omega arith) (omega arith)
      (omega arith)

live-after_example :
    let p =
      after
        (inl entered ∷ inr started ∷ inl leaving ∷ [])
        (opened three (7 ∷ 8 ∷ []) (unmarked 3) 500 none no_intervals) in
    (contains (after (map inr (commanded stopped ∷ started ∷ [])) p).shared.live 3
      ≡ contains p.shared.live 3)
    × (contains (after (map inl (entered ∷ [])) p).shared.live 2 ≡ contains p.shared.live 2)
unfolding act_all act carousel_user timer_user handle create base_service.Timer.Sharing.act start
live-after_example =
    live-after three (7 ∷ 8 ∷ []) (unmarked 3) 500 none no_intervals
      (inl entered ∷ inr started ∷ inl leaving ∷ []) (entered ∷ [])
      (commanded stopped ∷ started ∷ []) 3 2 refl refl

now-rounds_example : (handle_all (rounds 1 4) shown).now ≡ 4 % 3
now-rounds_example =
    now-rounds three (7 ∷ 8 ∷ 9 ∷ []) no_intervals 4 (omega arith) (omega arith) refl
