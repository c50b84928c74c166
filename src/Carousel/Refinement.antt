-- ===== src/Carousel/Refinement.antt =====
-- The carousel does what the show does.
use base_service.Base.{
  ℕ, ◌<◌, ◌≡◌, refl, sym, subst, ◌∙◌, ap, inl, inr, Bool, true, false, none, some, List, [], ◌∷◌,
  arith, ◌==◌, Bool-cases,
}
use base_service.Browser.{Intervals, contains}
use base_service.Carousel.{
  Config, Animation, Carousel, Event, clicked, entered, leaving, finished, elapsed, auto_run,
  stop_run, change_to, run, complete, finish, click, elapse, handle, handle_all, create, init,
  init_view, change,
}
use base_service.Carousel.Marks.{unmarked}
use base_service.Carousel.Invariant.{
  Motion, rest, moving, IsValid, change_to-ignored, change_to_started, animation_to-Arrives,
  AllAllowed, handle-IsValid, config-handle, create-IsValid, handle_all-IsValid,
}
use base_service.Carousel.Session.{config-create}
use base_service.Carousel.Show.{
  Show, go, arrive, schedule, unschedule, next_of, perform, perform_all, begin, displayed, observed,
  show_of,
}

go_shown : (h : ℕ) (s : Show) → s.going ≡ none → (s.current == h) ≡ true → go h s ≡ s
go_shown h s g e = rw g (rw e refl)

go_other :
    (h : ℕ) (s : Show)
    → s.going ≡ none
    → (s.current == h) ≡ false
    → go h s ≡ record s { going = some h }
go_other h s g e = rw g (rw e refl)

go_going : (h i : ℕ) (s : Show) → s.going ≡ some i → go h s ≡ s
go_going h i s g = rw g refl

-- The item that the show of a carousel moves to.
going_rest : (c : Carousel) → c.animation ≡ none → (show_of c).going ≡ none
going_rest c e = rw e refl

going_moving :
    (a : Animation) (c : Carousel) → c.animation ≡ some a → (show_of c).going ≡ some a.index
going_moving a c e = rw e refl

show_of-change_to : (h : ℕ) (c : Carousel) → IsValid c → show_of (change_to h c) ≡ go h (show_of c)
show_of-change_to h c v = by_motion v.motion
  where
    by_motion : Motion c → show_of (change_to h c) ≡ go h (show_of c)
    by_motion (rest f e l) = elim (Bool-cases (c.now == h)) [
      | inl i ↦
          ap show_of (change_to-ignored h c (ground arith))
          ∙ sym (go_shown h (show_of c) (going_rest c e) i)
      | inr i ↦
          let ix = (animation_to-Arrives c.config c.now h v.wide (omega (arith, v.now_lt))).1 in
          ap show_of (change_to_started h c (ground arith))
          ∙ ap (λ k. record (show_of c) { going = some k }) (rw l ix)
          ∙ sym (go_other h (show_of c) (going_rest c e) i)
    ]
    by_motion (moving a f e lt arr) =
        ap show_of (change_to-ignored h c (ground arith))
        ∙ sym (go_going h a.index (show_of c) (going_moving a c e))

show_of-auto_run : (c : Carousel) → show_of (auto_run c) ≡ schedule c.config (show_of c)
unfolding auto_run
show_of-auto_run c = elim (Bool-cases c.config.auto) [ inl e ↦ rw e refl | inr e ↦ rw e refl ]

show_of-finish : (c : Carousel) → show_of (finish c) ≡ arrive (show_of c)
unfolding finish complete
show_of-finish c = ground arith

config-change_to : (h : ℕ) (c : Carousel) → (change_to h c).config ≡ c.config
unfolding change_to
config-change_to h c = ground arith

show_of-stop_run : (c : Carousel) → show_of (stop_run c) ≡ unschedule (show_of c)
unfolding stop_run
show_of-stop_run c = refl

config-stop_run : (c : Carousel) → (stop_run c).config ≡ c.config
unfolding stop_run
config-stop_run c = refl

show_of-click :
    (f : ℕ) (c : Carousel)
    → IsValid c
    → show_of (click f c) ≡ schedule c.config (unschedule (go f (show_of c)))
unfolding click
show_of-click f c v =
    let d = change_to f c in
    show_of-auto_run (stop_run d)
    ∙ ap (λ o. schedule o (show_of (stop_run d))) (config-stop_run d ∙ config-change_to f c)
    ∙ ap (schedule c.config) (show_of-stop_run d)
    ∙ ap (λ s. schedule c.config (unschedule s)) (show_of-change_to f c v)

-- The show does what the carousel does, at each event.
show_of-handle :
    (e : Event) (c : Carousel) → IsValid c → show_of (handle e c) ≡ perform c.config e (show_of c)
unfolding handle perform elapse run
show_of-handle (clicked f) c v = show_of-click f c v
show_of-handle entered c v = unfold stop_run in refl
show_of-handle leaving c v = show_of-auto_run c
show_of-handle finished c v = show_of-finish c
show_of-handle (elapsed k) c v = elim (Bool-cases (contains c.intervals.live k)) [
  | inl e ↦ rw e (show_of-change_to (next_of c.config c.now) c v)
  | inr e ↦ rw e refl
]

show_of-handle_all :
    (es : List Event) (c : Carousel)
    → AllAllowed c.config es
    → IsValid c
    → show_of (handle_all es c) ≡ perform_all c.config es (show_of c)
unfolding handle_all perform_all
show_of-handle_all [] c ok v = refl
show_of-handle_all (e ∷ es) c ok v =
    let same = config-handle e c in
    show_of-handle_all es (handle e c) (subst (λ o. AllAllowed o es) (sym same) ok.1)
      (handle-IsValid e c ok.0 v)
    ∙ ap (λ o. perform_all o es (show_of (handle e c))) same
    ∙ ap (perform_all c.config es) (show_of-handle e c v)

config-handle_all : (es : List Event) (c : Carousel) → (handle_all es c).config ≡ c.config
unfolding handle_all
config-handle_all [] c = refl
config-handle_all (e ∷ es) c = config-handle_all es (handle e c) ∙ config-handle e c

show_of-create :
    (o : Config) (images : List ℕ) (on : List Bool) (w : Intervals)
    → show_of (create o images on w) ≡ begin o w
unfolding create init init_view auto_run change begin
show_of-create o [] on w = elim (Bool-cases o.auto) [ inl e ↦ rw e refl | inr e ↦ rw e refl ]
show_of-create o (i ∷ images) on w = elim (Bool-cases o.auto) [
  | inl e ↦ rw e refl
  | inr e ↦ rw e refl
]

observed-displayed : (c : Carousel) → IsValid c → observed c ≡ displayed c.config (show_of c)
observed-displayed c v = by_motion v.motion
  where
    by_motion : Motion c → observed c ≡ displayed c.config (show_of c)
    by_motion (rest f e l) = rw (f, e, l, v.marks) refl
    by_motion (moving a f e lt arr) = rw (f, e, v.marks) refl

-- After any list of events in which only switches of the page are clicked, a carousel made over
-- switches of which none is marked stands for the show that the same events make of the show's
-- beginning, and the page shows what that show displays: the place of the view at rest and the
-- classes of the switches.
pub handle_all-perform_all :
    (o : Config) (images : List ℕ) (w : Intervals) (es : List Event)
    → 0 < o.width
    → 0 < o.num
    → AllAllowed o es
    → (show_of (handle_all es (create o images (unmarked o.num) w)) ≡ perform_all o es (begin o w))
      × (observed (handle_all es (create o images (unmarked o.num) w))
          ≡ displayed o (perform_all o es (begin o w)))
handle_all-perform_all o images w es pw pn ok =
    let c = create o images (unmarked o.num) w in
    let same = config-create o images w in
    let ok' = subst (λ p. AllAllowed p es) (sym same) ok in
    let v = create-IsValid o images w pw pn in
    let shown : show_of (handle_all es c) ≡ perform_all o es (begin o w) =
      show_of-handle_all es c ok' v
      ∙ ap (λ p. perform_all p es (show_of c)) same
      ∙ ap (perform_all o es) (show_of-create o images (unmarked o.num) w) in
    (
      shown,
      observed-displayed (handle_all es c) (handle_all-IsValid es c ok' v)
          ∙ ap (λ p. displayed p (show_of (handle_all es c))) (config-handle_all es c ∙ same)
          ∙ ap (displayed o) shown,
    )
