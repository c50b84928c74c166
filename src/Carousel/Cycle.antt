-- ===== src/Carousel/Cycle.antt =====
-- Which item the carousel shows after its events.
use base_service.Base.Round.{next-mod}
use base_service.Base.{
  ℕ, zero, suc, ◌+◌, ◌%◌, ◌<◌, ◌≡◌, ◌≢◌, refl, sym, ◌∙◌, ap, inl, inr, true, false, some, List, [],
  ◌∷◌, arith, ◌==◌, if◌then◌else◌, Bool-cases, set,
}
use native.Mathlib.Nat.{add-zero, mod-eq_of_lt}
use base_service.Base.Int.{pos, offset}
use base_service.Browser.{contains}
use base_service.Carousel.Marks.{marked, set-marked}
use base_service.Carousel.{
  Config, Animation, Carousel, parsed, animation_to, auto_run, stop_run, change_to, run, finish,
  click, elapse, Event, clicked, entered, leaving, finished, elapsed, handle, handle_all,
}
use base_service.Carousel.Invariant.{
  Motion, rest, moving, IsValid, ignored, change_to-ignored, change_to_started, Arrives,
  animation_to-Arrives, ignored_rest, finish-IsValid, run-IsValid,
}

-- Events before the end of the animation.
abbrev pub NoneFinished : List Event → Type 0
NoneFinished [] = Unit
NoneFinished (finished ∷ es) = ⊥
NoneFinished (_ ∷ es) = NoneFinished es

-- The parts that the events of a moving carousel leave alone.
pub record SameMotion (c d : Carousel) : Type 0 where
  pub now : d.now ≡ c.now
  pub free : d.free ≡ c.free
  pub left : d.left ≡ c.left
  pub on : d.on ≡ c.on
  pub animation : d.animation ≡ c.animation

SameMotion-refl : (c : Carousel) → SameMotion c c
SameMotion-refl c = record { now = refl; free = refl; left = refl; on = refl; animation = refl }

change_to_moving : (h : ℕ) (c : Carousel) → c.free ≡ false → change_to h c ≡ c
change_to_moving h c e = change_to-ignored h c (ground arith)

-- While an animation runs, clicks, hovers and the interval change nothing of the motion.
handle_moving :
    (e : Event) (c : Carousel) → NoneFinished (e ∷ []) → c.free ≡ false → SameMotion c (handle e c)
unfolding handle click stop_run auto_run elapse run
handle_moving (clicked f) c ok m = rw (change_to_moving f c m) (ground arith)
handle_moving entered c ok m = ground arith
handle_moving leaving c ok m = ground arith
handle_moving finished c ok m = elim ok [ ]
handle_moving (elapsed k) c ok m =
    ground (arith, change_to_moving (if c.now + 1 == c.config.num then 0 else c.now + 1) c m)

SameMotion-trans : (a b c : Carousel) → SameMotion a b → SameMotion b c → SameMotion a c
SameMotion-trans a b c p q = ground arith

-- One event is not the end of the animation, and none of the others is.
NoneFinished-cons :
    (e : Event) (es : List Event) → NoneFinished (e ∷ es) → NoneFinished (e ∷ []) × NoneFinished es
NoneFinished-cons (clicked f) es ok = (tt, ok)
NoneFinished-cons entered es ok = (tt, ok)
NoneFinished-cons leaving es ok = (tt, ok)
NoneFinished-cons finished es ok = elim ok [ ]
NoneFinished-cons (elapsed k) es ok = (tt, ok)

handle_all_moving :
    (es : List Event) (c : Carousel)
    → NoneFinished es
    → c.free ≡ false
    → SameMotion c (handle_all es c)
unfolding handle_all
handle_all_moving [] c ok m = SameMotion-refl c
handle_all_moving (e ∷ es) c ok m =
    let (one, more) = NoneFinished-cons e es ok in
    let step = handle_moving e c one m in
    SameMotion-trans c (handle e c) _ step (handle_all_moving es (handle e c) more (step.free ∙ m))

-- The end of animation `a`.
record Ended (a : Animation) (c d : Carousel) : Type 0 where
  now : d.now ≡ a.index
  free : d.free ≡ true
  on : d.on ≡ set (set c.on c.now false) a.index true
  left : parsed d.left ≡ (if a.wraps then pos 0 else a.target)

finish-Ended : (a : Animation) (c : Carousel) → c.animation ≡ some a → Ended a c (finish c)
unfolding finish
finish-Ended a c e = rw e (ground arith)

click-SameMotion : (h : ℕ) (c : Carousel) → SameMotion (change_to h c) (click h c)
unfolding click
click-SameMotion h c = ground arith

-- An animation that arrives ends at the offset of its item.
arrived_offset :
    (o : Config) (a : Animation)
    → Arrives o a
    → (if a.wraps then pos 0 else a.target) ≡ offset a.index o.width
arrived_offset o a (inl (w, t)) = rw (w, t)
arrived_offset o a (inr (w, t, z)) = rw (w, z) (ground arith)

-- At rest, a click on another switch `h`, then any events before the end of the animation, then
-- that end: item `h` is the current one, its switch alone is marked, the view stands at its offset,
-- and the carousel is free again.
pub finish-click :
    (h : ℕ) (es : List Event) (c : Carousel)
    → IsValid c
    → c.free ≡ true
    → h < c.config.num
    → c.now ≢ h
    → NoneFinished es
    → let d = finish (handle_all es (click h c)) in
      (d.now ≡ h)
      × (d.on ≡ marked c.config.num h)
      × (parsed d.left ≡ offset h c.config.width)
      × (d.free ≡ true)
finish-click h es c v f lt ne ok =
    let go = change_to_started h c (ground arith) in
    let a = animation_to c.config c.now h (parsed c.left) in
    let at = ignored_rest h c (ground arith) v.motion in
    let (arr, ix) = animation_to-Arrives c.config c.now h v.wide (omega (arith, v.now_lt)) in
    let clicked_same = click-SameMotion h c in
    let later = handle_all_moving es (click h c) ok (ground (arith, go, clicked_same)) in
    let e = finish-Ended a (handle_all es (click h c)) (ground (arith, go, clicked_same, later)) in
    let arr' : Arrives c.config a = rw at arr in
    let ix' : a.index ≡ h = rw at ix in
    (
      e.now ∙ ix',
      cc (
        e.on,
        later.on,
        later.now,
        clicked_same.on,
        clicked_same.now,
        ap Carousel.on go,
        ap Carousel.now go,
        v.marks,
        set-marked c.config.num c.now h,
        ix',
      ),
      e.left ∙ arrived_offset c.config a arr' ∙ ap (λ k. offset k c.config.width) ix',
      e.free,
    )

-- One turn of the carousel by itself: the interval's `run`, and the end of its animation.
unfoldable pub turn : Carousel → Carousel
turn c = finish (run c)

unfoldable pub turns : ℕ → Carousel → Carousel
turns zero c = c
turns (suc n) c = turns n (turn c)

-- The item behind `now`, round the end.
abbrev next_item : Carousel → ℕ
next_item c = if c.now + 1 == c.config.num then 0 else c.now + 1

config-turn : (c : Carousel) → (turn c).config ≡ c.config
unfolding turn run change_to finish
config-turn c = ground arith

pub intervals-turn : (c : Carousel) → (turn c).intervals ≡ c.intervals
unfolding turn run change_to finish
intervals-turn c = ground arith

-- The interval and the end of the animation that it starts are a turn.
pub finish-elapse :
    (k : ℕ) (c : Carousel) → contains c.intervals.live k ≡ true → finish (elapse k c) ≡ turn c
unfolding turn elapse
finish-elapse k c e = rw e refl

finish_rest : (c : Carousel) → c.free ≡ true → Motion c → finish c ≡ c
unfolding finish
finish_rest c f (rest f' e l) = rw e
finish_rest c f (moving a f' e lt arr) = absurd (cc)

animation_to-index :
    (h : ℕ) (c : Carousel)
    → IsValid c
    → ignored h c ≡ false
    → (animation_to c.config c.now h (parsed c.left)).index ≡ h
animation_to-index h c v e =
    rw (ignored_rest h c e v.motion)
      (animation_to-Arrives c.config c.now h v.wide (omega (arith, v.now_lt))).1

now-turn :
    (c : Carousel)
    → IsValid c
    → c.free ≡ true
    → ((turn c).now ≡ next_item c) × ((turn c).free ≡ true)
unfolding turn run
now-turn c v f = elim (Bool-cases (ignored (next_item c) c)) [
  | inl e ↦ rw (change_to-ignored (next_item c) c e) (rw (finish_rest c f v.motion) (ground arith))
  | inr e ↦
      let go = change_to_started (next_item c) c e in
      let a = animation_to c.config c.now (next_item c) (parsed c.left) in
      let done = finish-Ended a (change_to (next_item c) c) (ap Carousel.animation go) in
      (done.now ∙ animation_to-index (next_item c) c v e, done.free)
]

-- From rest, after `n` turns the carousel shows the item `n` places on, counted round the end.
pub now-turns :
    (n : ℕ) (c : Carousel)
    → IsValid c
    → c.free ≡ true
    → (turns n c).now ≡ (c.now + n) % c.config.num
unfolding turns
now-turns zero c v f = rw add-zero (sym (mod-eq_of_lt v.now_lt))
now-turns (suc n) c v f =
    let v' : IsValid (turn c) = unfold turn in finish-IsValid (run c) (run-IsValid c v) in
    let (at, f') = now-turn c v f in
    now-turns n (turn c) v' f'
    ∙ ap (λ o. ((turn c).now + n) % Config.num o) (config-turn c)
    ∙ ap (λ (k : ℕ). (k + n) % c.config.num) at
    ∙ next-mod c.now n c.config.num v.now_lt
