-- ===== src/Timer/Finite.antt =====
-- That a timer with a limit comes to its end.
use base_service.Base.{
  ℕ, zero, suc, ◌+◌, ◌-◌, ◌≤◌, ◌≡◌, refl, sym, ◌∙◌, subst, ap, inl, inr, true, false, some, List,
  [], ◌∷◌, arith, ◌==◌, ==_refl, Bool-cases,
}
use mathlib.Core.WellFounded.{Acc}
use base_service.Browser.{contains}
use base_service.Timer.{Timer, tick, start, stop, pause, set_delay}
use base_service.Timer.Bounded.{next-stop, stop_fields}
use base_service.Timer.Single.{
  Command, ticked, paused, stopped, delayed, perform, perform_all, stop-perform_all, remove-own,
}

-- `t` is `s` after the timer's function was called: one of the scheduled intervals elapsed.
abbrev pub Calls : Timer → Timer → Type 0
Calls t s = (k : ℕ) × (contains s.intervals.live k ≡ true) × (t ≡ tick k s)

-- The timer's own interval alone is scheduled, and fewer calls than the limit were made.
record Bounded (k f : ℕ) (s : Timer) : Type 0 where
  own : s.handle ≡ some k
  live : s.intervals.live ≡ k ∷ []
  limit : s.limit ≡ some (suc f)
  below : s.count ≤ f

tick_last :
    (k f : ℕ) (s : Timer) → Bounded k f s → (s.count == f) ≡ true → (tick k s).intervals.live ≡ []
unfolding tick
tick_last k f s b e = ground (arith, remove-own k, ==_refl k)

tick_more :
    (k f : ℕ) (s : Timer)
    → Bounded k f s
    → (s.count == f) ≡ false
    → Bounded k f (tick k s) × ((tick k s).count ≡ s.count + 1)
unfolding tick
tick_more k f s b e = ground (arith, ==_refl k)

Acc-idle : (s : Timer) → s.intervals.live ≡ [] → Acc Calls s
Acc-idle s e = Acc.intro s (λ t (k, live, _). absurd (cc (live, ap (λ xs. contains xs k) e)))

-- By induction on the calls that the limit still allows.
Acc-Bounded : (n k f : ℕ) (s : Timer) → Bounded k f s → suc f - s.count ≤ n → Acc Calls s
Acc-Bounded zero k f s b h = absurd (omega (arith, b.below))
Acc-Bounded (suc n) k f s b h = Acc.intro s (λ t (j, live, q).
    let same : j ≡ k = ground (arith, b.live) in
    subst (Acc Calls) (sym (q ∙ ap (λ i. tick i s) same)) (elim (Bool-cases (s.count == f)) [
      | inl e ↦ Acc-idle (tick k s) (tick_last k f s b e)
      | inr e ↦
          let (b', c) = tick_more k f s b e in Acc-Bounded n k f (tick k s) b' (omega (arith, c, h))
    ]))

limit-perform : (c : Command) (s : Timer) → (perform c s).limit ≡ s.limit
unfolding perform tick pause stop set_delay
limit-perform (ticked k) s = ground arith
limit-perform paused s = refl
limit-perform stopped s = refl
limit-perform (delayed g) s = refl

limit-perform_all : (cs : List Command) (s : Timer) → (perform_all cs s).limit ≡ s.limit
unfolding perform_all
limit-perform_all [] s = refl
limit-perform_all (c ∷ cs) s = limit-perform_all cs (perform c s) ∙ limit-perform c s

start-stop-Bounded :
    (f : ℕ) (s : Timer)
    → (stop s).intervals.live ≡ []
    → s.limit ≡ some (suc f)
    → Bounded s.intervals.next f (start (stop s))
unfolding start
start-stop-Bounded f s e l =
    let (_, count, limit) = stop_fields s in
    record {
      own = ap some (next-stop s);
      live = cc (next-stop s, e);
      limit = limit ∙ l;
      below = omega (arith, count);
    }

-- On a page with no other interval, a timer with a limit f > 0, after a start, any ticks, pauses,
-- stops and changes of the delay, and then `stop` and `start`: there is no unending sequence of
-- calls of its function, whichever scheduled interval elapses at each step.
pub Acc-perform_all :
    (cs : List Command) (s : Timer) (f : ℕ)
    → s.intervals.live ≡ []
    → s.limit ≡ some (suc f)
    → Acc Calls (start (stop (perform_all cs (start s))))
unfolding start
Acc-perform_all cs s f e l =
    let s' = perform_all cs (start s) in
    Acc-Bounded (suc f) s'.intervals.next f (start (stop s'))
      (start-stop-Bounded f s' (stop-perform_all cs s e) (limit-perform_all cs (start s) ∙ l))
      (omega arith)
