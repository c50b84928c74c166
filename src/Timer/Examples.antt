-- ===== src/Timer/Examples.antt =====
-- A run of a timer with the limit 2, and the theorems at such inputs.
use base_service.Base.{◌≡◌, refl, false, some, [], ◌∷◌, arith}
use mathlib.Core.WellFounded.{Acc}
use base_service.Browser.{no_intervals, contains}
use base_service.Timer.{Timer, create, tick, ticks, start, stop}
use base_service.Timer.Bounded.{calls-start-stop, calls-restart}
use base_service.Timer.Single.{ticked, delayed, paused, perform_all}
use base_service.Timer.Finite.{Calls, Acc-perform_all}

abbrev fresh : Timer
fresh = create 500 (some 2) no_intervals

two_calls : (ticks 1 5 (start fresh)).calls ≡ 2
unfolding ticks tick start
two_calls = refl

calls-start-stop_example :
    let s' = ticks 1 5 (start (stop fresh)) in
    (s'.calls ≡ 2) × (contains s'.intervals.live 1 ≡ false)
calls-start-stop_example = calls-start-stop fresh 1 5 refl

calls-restart_example :
    let done = ticks 1 3 (start (stop fresh)) in
    (contains done.intervals.live 1 ≡ false)
    × ((ticks done.intervals.next 7 (start done)).calls ≡ 9)
calls-restart_example = calls-restart fresh 1 3 7 refl (omega arith)

Acc-perform_all_example :
    Acc Calls (start (stop (perform_all (ticked 1 ∷ delayed 30 ∷ paused ∷ []) (start fresh))))
Acc-perform_all_example = Acc-perform_all (ticked 1 ∷ delayed 30 ∷ paused ∷ []) fresh 1 refl refl
