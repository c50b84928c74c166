-- ===== src/Timer/Sharing.antt =====
-- A timer among other users of the page's intervals.
use base_service.Base.{ℕ, ◌≤◌, ◌<◌, ◌≡◌, ◌≢◌, ◌⊎◌, refl, sym, ◌∙◌, inl, inr, some, arith}
use base_service.Browser.{contains, clear_interval}
use base_service.Browser.Sharing.{
  User, contains-clear_interval, contains-set_interval, next-clear_interval, new_handle,
}
use base_service.Timer.{Timer, tick, start, stop, pause, set_delay}
use base_service.Timer.Single.{Command, ticked, paused, stopped, delayed, perform}

pub data Action : Type 0 where
  started : Action
  commanded : Command → Action

unfoldable pub act : Action → Timer → Timer
act started s = start s
act (commanded c) s = perform c s

live-tick :
    (j : ℕ) (s : Timer) (k : ℕ)
    → s.handle ≢ some k
    → contains (tick j s).intervals.live k ≡ contains s.intervals.live k
unfolding tick
live-tick j s k n = ground (arith, contains-clear_interval s.handle s.intervals k n)

pub live-act :
    (a : Action) (s : Timer) (k : ℕ)
    → s.handle ≢ some k
    → k < s.intervals.next
    → contains (act a s).intervals.live k ≡ contains s.intervals.live k
unfolding act start perform pause stop set_delay
live-act started s k n h = contains-set_interval s.intervals k h
live-act (commanded (ticked j)) s k n h = live-tick j s k n
live-act (commanded paused) s k n h = contains-clear_interval s.handle s.intervals k n
live-act (commanded stopped) s k n h = contains-clear_interval s.handle s.intervals k n
live-act (commanded (delayed g)) s k n h =
    contains-set_interval (clear_interval s.handle s.intervals) k
      (rw (next-clear_interval s.handle s.intervals) h)
    ∙ contains-clear_interval s.handle s.intervals k n

next-tick : (j : ℕ) (s : Timer) → (tick j s).intervals.next ≡ s.intervals.next
unfolding tick
next-tick j s = ground (arith, next-clear_interval s.handle s.intervals)

pub next-act : (a : Action) (s : Timer) → s.intervals.next ≤ (act a s).intervals.next
unfolding act start perform pause stop set_delay
next-act started s = omega arith
next-act (commanded (ticked j)) s = omega (arith, next-tick j s)
next-act (commanded paused) s = omega (arith, next-clear_interval s.handle s.intervals)
next-act (commanded stopped) s = omega (arith, next-clear_interval s.handle s.intervals)
next-act (commanded (delayed g)) s = omega (arith, next-clear_interval s.handle s.intervals)

handle-tick : (j : ℕ) (s : Timer) → (tick j s).handle ≡ s.handle
unfolding tick
handle-tick j s = ground arith

pub handle-act :
    (a : Action) (s : Timer) (k : ℕ)
    → (act a s).handle ≡ some k
    → (s.handle ≡ some k) ⊎ (s.intervals.next ≤ k) × (k < (act a s).intervals.next)
unfolding act start perform pause stop set_delay
handle-act started s k q = inr (new_handle s.intervals.next k q)
handle-act (commanded (ticked j)) s k q = inl (sym (handle-tick j s) ∙ q)
handle-act (commanded paused) s k q = inl q
handle-act (commanded stopped) s k q = inl q
handle-act (commanded (delayed g)) s k q =
    let n = next-clear_interval s.handle s.intervals in
    let new = new_handle (clear_interval s.handle s.intervals).next k q in
    inr (omega (arith, n, new.0), new.1)

unfoldable pub timer_user : User Timer Action
timer_user = record {
  step = act;
  own = λ s. s.handle;
  table = λ s. s.intervals;
  put = λ w s. record s { intervals = w };
  table-put = λ w s. refl;
  own-put = λ w s. refl;
  next-step = next-act;
  live-step = live-act;
  own-step = handle-act;
}
