-- ===== src/Carousel/Sharing.antt =====
-- A carousel among other users of the page's intervals.
use base_service.Base.{
  ℕ, ◌≤◌, ◌<◌, ◌≡◌, ◌≢◌, ◌⊎◌, refl, sym, subst, ◌∙◌, ap, inl, inr, some, arith, Bool-cases,
}
use base_service.Browser.{Intervals, contains}
use base_service.Browser.Sharing.{
  User, contains-clear_interval, contains-set_interval, next-clear_interval, new_handle,
}
use base_service.Carousel.{
  Carousel, Event, clicked, entered, leaving, finished, elapsed, auto_run, stop_run, change_to,
  click, elapse, finish, handle,
}
use base_service.Carousel.Intervals.{change_to_intervals, elapse_intervals, finish_intervals}

-- What is asked of a step from `c` to `d`.
pub record Fair (c d : Carousel) : Type 0 where
  pub rises : c.intervals.next ≤ d.intervals.next
  pub keeps :
      (k : ℕ)
      → c.tm ≢ some k
      → k < c.intervals.next
      → contains d.intervals.live k ≡ contains c.intervals.live k
  pub takes :
      (k : ℕ) → d.tm ≡ some k → (c.tm ≡ some k) ⊎ (c.intervals.next ≤ k) × (k < d.intervals.next)

Fair-same : (c d : Carousel) → d.intervals ≡ c.intervals → d.tm ≡ c.tm → Fair c d
Fair-same c d i t = record {
  rises = subst (λ w. c.intervals.next ≤ Intervals.next w) (sym i) (omega arith);
  keeps = λ k n h. ap (λ w. contains (Intervals.live w) k) i;
  takes = λ k q. inl (sym t ∙ q);
}

Fair-trans : (b c d : Carousel) → Fair b c → Fair c d → Fair b d
Fair-trans b c d g h = record {
  rises = omega (arith, g.rises, h.rises);
  keeps = λ k n l.
      h.keeps k
        (λ q. elim (g.takes k q) [ inl old ↦ n old | inr new ↦ absurd (omega (arith, new.0, l)) ])
        (omega (arith, g.rises, l))
      ∙ g.keeps k n l;
  takes = λ k q. elim (h.takes k q) [
    | inl old ↦ elim (g.takes k old) [
      | inl older ↦ inl older
      | inr new ↦ inr (new.0, omega (arith, new.1, h.rises))
    ]
    | inr new ↦ inr (omega (arith, new.0, g.rises), new.1)
  ];
}

Fair-auto_run : (c : Carousel) → Fair c (auto_run c)
unfolding auto_run
Fair-auto_run c = elim (Bool-cases c.config.auto) [
  | inl e ↦ rw e (record {
    rises = omega arith;
    keeps = λ k n h. contains-set_interval c.intervals k h;
    takes = λ k q. inr (new_handle c.intervals.next k q);
  })
  | inr e ↦
      let same : auto_run c ≡ c = rw e refl in
      Fair-same c (auto_run c) (ap Carousel.intervals same) (ap Carousel.tm same)
]

Fair-stop_run : (c : Carousel) → Fair c (stop_run c)
unfolding stop_run
Fair-stop_run c = record {
  rises = omega (arith, next-clear_interval c.tm c.intervals);
  keeps = λ k n h. contains-clear_interval c.tm c.intervals k n;
  takes = λ k q. inl q;
}

pub Fair-handle : (e : Event) (c : Carousel) → Fair c (handle e c)
unfolding handle click
Fair-handle (clicked f) c =
    let d = change_to f c in
    let same = change_to_intervals f c in
    Fair-trans c d (auto_run (stop_run d)) (Fair-same c d same.0 same.1) (
      Fair-trans d (stop_run d) (auto_run (stop_run d)) (Fair-stop_run d)
        (Fair-auto_run (stop_run d)))
Fair-handle entered c = Fair-stop_run c
Fair-handle leaving c = Fair-auto_run c
Fair-handle finished c = Fair-same c (finish c) (finish_intervals c).0 (finish_intervals c).1
Fair-handle (elapsed k) c =
    Fair-same c (elapse k c) (elapse_intervals k c).0 (elapse_intervals k c).1

unfoldable pub carousel_user : User Carousel Event
carousel_user = record {
  step = handle;
  own = λ c. c.tm;
  table = λ c. c.intervals;
  put = λ w c. record c { intervals = w };
  table-put = λ w c. refl;
  own-put = λ w c. refl;
  next-step = λ e c. (Fair-handle e c).rises;
  live-step = λ e c k n h. (Fair-handle e c).keeps k n h;
  own-step = λ e c k q. (Fair-handle e c).takes k q;
}
