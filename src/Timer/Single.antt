-- ===== src/Timer/Single.antt =====
-- When a timer keeps at most one interval scheduled.
use base_service.Base.{ℕ, ◌+◌, ◌≡◌, refl, ◌∙◌, ◌⊎◌, inl, inr, some, List, [], ◌∷◌, arith, ==_refl}
use base_service.Browser.{remove as delete}
use base_service.Timer.{Timer, remove, tick, start, stop, pause, set_delay}

-- In a page where no other code has an interval: nothing is scheduled, or the timer's own handle.
pub data AtMostOne (s : Timer) : Type 0 where
  idle : s.intervals.live ≡ [] → AtMostOne s
  running : (k : ℕ) → s.handle ≡ some k → s.intervals.live ≡ k ∷ [] → AtMostOne s

pub data Command : Type 0 where
  ticked : ℕ → Command
  paused stopped : Command
  delayed : ℕ → Command

unfoldable pub perform : Command → Timer → Timer
perform (ticked k) s = tick k s
perform paused s = pause s
perform stopped s = stop s
perform (delayed g) s = set_delay g s

pub remove-own : (k : ℕ) → delete k (k ∷ []) ≡ []
remove-own k = ground (arith, ==_refl k)

remove-AtMostOne : (s : Timer) → AtMostOne s → (remove s).intervals.live ≡ []
unfolding remove
remove-AtMostOne s (idle e) = ground arith
remove-AtMostOne s (running k o e) = ground (arith, remove-own k)

tick_cases :
    (k : ℕ) (s : Timer)
    → (tick k s ≡ s)
      ⊎ ((tick k s).intervals ≡ s.intervals) × ((tick k s).handle ≡ s.handle)
      ⊎ ((tick k s).intervals.live ≡ (remove s).intervals.live)
unfolding tick remove
tick_cases k s = ground arith

tick-AtMostOne : (k : ℕ) (s : Timer) → AtMostOne s → AtMostOne (tick k s)
tick-AtMostOne k s (idle e) = elim (tick_cases k s) [
  | inl same ↦ idle (cc)
  | inr (inl same) ↦ idle (cc)
  | inr (inr gone) ↦ idle (gone ∙ remove-AtMostOne s (idle e))
]
tick-AtMostOne k s (running j o e) = elim (tick_cases k s) [
  | inl same ↦ running j (cc) (cc)
  | inr (inl same) ↦ running j (cc (same.1)) (cc (same.0))
  | inr (inr gone) ↦ idle (gone ∙ remove-AtMostOne s (running j o e))
]

start-AtMostOne : (s : Timer) → s.intervals.live ≡ [] → AtMostOne (start s)
unfolding start
start-AtMostOne s e = running s.intervals.next refl (cc)

-- Ticks, `pause`, `stop` and `setDelay` keep at most one interval scheduled.
perform-AtMostOne : (c : Command) (s : Timer) → AtMostOne s → AtMostOne (perform c s)
unfolding perform pause stop set_delay
perform-AtMostOne (ticked k) s h = tick-AtMostOne k s h
perform-AtMostOne paused s h = idle (remove-AtMostOne s h)
perform-AtMostOne stopped s h = idle (remove-AtMostOne s h)
perform-AtMostOne (delayed g) s h =
    start-AtMostOne (remove (record s { delay = g })) (unfold remove in (remove-AtMostOne s h))

unfoldable pub perform_all : List Command → Timer → Timer
perform_all [] s = s
perform_all (c ∷ cs) s = perform_all cs (perform c s)

perform_all-AtMostOne : (cs : List Command) (s : Timer) → AtMostOne s → AtMostOne (perform_all cs s)
unfolding perform_all
perform_all-AtMostOne [] s h = h
perform_all-AtMostOne (c ∷ cs) s h =
    perform_all-AtMostOne cs (perform c s) (perform-AtMostOne c s h)

-- After a `start` with nothing scheduled, whatever ticks, pauses, stops and changes of the delay
-- follow, a `stop` leaves nothing scheduled.
pub stop-perform_all :
    (cs : List Command) (s : Timer)
    → s.intervals.live ≡ []
    → (stop (perform_all cs (start s))).intervals.live ≡ []
unfolding stop
stop-perform_all cs s e =
    remove-AtMostOne _ (perform_all-AtMostOne cs (start s) (start-AtMostOne s e))

-- A second `start` of a running timer loses the first interval: after `stop` it is still scheduled.
pub stop-start-start :
    (s : Timer)
    → s.intervals.live ≡ []
    → (stop (start (start s))).intervals.live ≡ s.intervals.next ∷ []
unfolding stop start remove
stop-start-start s e = simp e (ground (arith, ==_refl (s.intervals.next + 1)))
