-- ===== src/Timer/Bounded.antt =====
-- How often a timer calls its function.
use base_service.Base.{
  ℕ, zero, suc, ◌+◌, ◌-◌, ◌≤◌, ◌<◌, min, ◌≡◌, refl, true, false, Option, none, some, arith, ◌==◌,
  ltb, ==_refl, inl, inr, Bool-cases,
}
use base_service.Browser.{contains}
use base_service.Browser.Contains.{contains-remove_same}
use base_service.Timer.{Timer, reached, tick, start, stop, ticks}

-- Identifier `k` is the timer's own and scheduled.
pub record Runs (k : ℕ) (s : Timer) : Type 0 where
  pub own : s.handle ≡ some k
  pub live : contains s.intervals.live k ≡ true

ticks_dead : (k n : ℕ) (s : Timer) → contains s.intervals.live k ≡ false → ticks k n s ≡ s
unfolding ticks
ticks_dead k zero s h = refl
ticks_dead k (suc n) s h = let e : tick k s ≡ s = unfold tick in rw h in rw e (ticks_dead k n s h)

tick_last :
    (k f : ℕ) (s : Timer)
    → Runs k s
    → s.limit ≡ some (suc f)
    → s.count ≡ f
    → ((tick k s).calls ≡ s.calls + 1) × (contains (tick k s).intervals.live k ≡ false)
unfolding tick
tick_last k f s r l c = ground (arith, contains-remove_same k s.intervals.live)

tick_more :
    (k f : ℕ) (s : Timer)
    → Runs k s
    → s.limit ≡ some (suc f)
    → (s.count == f) ≡ false
    → ((tick k s).calls ≡ s.calls + 1)
      × ((tick k s).count ≡ s.count + 1)
      × ((tick k s).limit ≡ some (suc f))
      × Runs k (tick k s)
unfolding tick
tick_more k f s r l c = ground arith

-- `k` ran out: it is no longer scheduled, or runs on.
calls-ticks_capped :
    (k f n : ℕ) (s : Timer)
    → Runs k s
    → s.limit ≡ some (suc f)
    → s.count ≤ f
    → (ticks k n s).calls ≡ s.calls + min n (suc f - s.count)
unfolding ticks
calls-ticks_capped k f zero s r l c = omega arith
calls-ticks_capped k f (suc n) s r l c = elim (Bool-cases (s.count == f)) [
  | inl e ↦
      let t = tick_last k f s r l (ground arith) in
      rw (ticks_dead k n (tick k s) t.1) (ground (arith, t))
  | inr e ↦
      let t = tick_more k f s r l e in
      ground (arith, t, calls-ticks_capped k f n (tick k s) t.3 t.2)
]

live-ticks_capped :
    (k f n : ℕ) (s : Timer)
    → Runs k s
    → s.limit ≡ some (suc f)
    → s.count ≤ f
    → contains (ticks k n s).intervals.live k ≡ ltb n (suc f - s.count)
unfolding ticks
live-ticks_capped k f zero s r l c = ground arith
live-ticks_capped k f (suc n) s r l c = elim (Bool-cases (s.count == f)) [
  | inl e ↦
      let t = tick_last k f s r l (ground arith) in
      rw (ticks_dead k n (tick k s) t.1) (ground (arith, t))
  | inr e ↦
      let t = tick_more k f s r l e in ground (arith, t, live-ticks_capped k f n (tick k s) t.3 t.2)
]

start-Runs : (s : Timer) → Runs s.intervals.next (start s)
unfolding start
start-Runs s = record { own = refl; live = ground (arith, ==_refl s.intervals.next) }

pub next-stop : (s : Timer) → (stop s).intervals.next ≡ s.intervals.next
unfolding stop
next-stop s = ground arith

pub stop_fields :
    (s : Timer)
    → ((start (stop s)).calls ≡ s.calls)
      × ((start (stop s)).count ≡ 0)
      × ((start (stop s)).limit ≡ s.limit)
unfolding start stop
stop_fields s = ground arith

stop-start-Runs : (s : Timer) → Runs s.intervals.next (start (stop s))
unfolding stop
stop-start-Runs s = rw next-stop at (start-Runs (stop s))

-- Started after `stop`, or for the first time, a timer with a limit f > 0 calls its function once
-- for each of its first f ticks and no more, and is scheduled as long as fewer than f have passed.
pub calls-start-stop :
    (s : Timer) (f n : ℕ)
    → s.limit ≡ some (suc f)
    → let s' = ticks s.intervals.next n (start (stop s)) in
      (s'.calls ≡ s.calls + min n (suc f))
      × (contains s'.intervals.live s.intervals.next ≡ ltb n (suc f))
calls-start-stop s f n l =
    let k = s.intervals.next in
    let t = start (stop s) in
    let (same_calls, zero_count, same_limit) = stop_fields s in
    let r = stop-start-Runs s in
    let l' : t.limit ≡ some (suc f) = cc in
    (
      ground (arith, calls-ticks_capped k f n t r l' (ground arith)),
      ground (arith, live-ticks_capped k f n t r l' (ground arith)),
    )

-- Past its limit a timer is not stopped by it: `e == f` fails from then on.
tick_past :
    (k : ℕ) (s : Timer)
    → Runs k s
    → reached s.limit (s.count + 1) ≡ false
    → ((tick k s).calls ≡ s.calls + 1)
      × ((tick k s).count ≡ s.count + 1)
      × ((tick k s).limit ≡ s.limit)
      × Runs k (tick k s)
unfolding tick
tick_past k s r h = ground arith

-- The limit cannot be met by a count above `c`.
abbrev NeverReached : Option ℕ → ℕ → Type 0
NeverReached none c = Unit
NeverReached (some zero) c = Unit
NeverReached (some (suc f)) c = f < c

NeverReached-false : (o : Option ℕ) (c : ℕ) → NeverReached o c → reached o (c + 1) ≡ false
NeverReached-false none c h = refl
NeverReached-false (some zero) c h = refl
NeverReached-false (some (suc f)) c h = ground arith

NeverReached-next : (o : Option ℕ) (c : ℕ) → NeverReached o c → NeverReached o (c + 1)
NeverReached-next none c h = tt
NeverReached-next (some zero) c h = tt
NeverReached-next (some (suc f)) c h = omega arith

-- A running timer with no limit, the limit 0, or a count that has passed its limit calls its
-- function at every tick and stays scheduled.
calls-ticks_unlimited :
    (k n : ℕ) (s : Timer)
    → Runs k s
    → NeverReached s.limit s.count
    → ((ticks k n s).calls ≡ s.calls + n) × Runs k (ticks k n s)
unfolding ticks
calls-ticks_unlimited k zero s r h = (omega arith, r)
calls-ticks_unlimited k (suc n) s r h =
    let (c, e, l, r') = tick_past k s r (NeverReached-false s.limit s.count h) in
    let h' : NeverReached (tick k s).limit (tick k s).count =
      rw (l, e) (NeverReached-next s.limit s.count h) in
    let ih = calls-ticks_unlimited k n (tick k s) r' h' in (omega (arith, ih.0), ih.1)

-- What a timer that ran out leaves behind: the count at the limit.
ticks_finished :
    (k f m : ℕ) (s : Timer)
    → Runs k s
    → s.limit ≡ some (suc f)
    → s.count ≤ f
    → suc f - s.count ≤ m
    → ((ticks k m s).count ≡ suc f) × ((ticks k m s).limit ≡ some (suc f))
unfolding ticks
ticks_finished k f zero s r l c h = absurd (omega arith)
ticks_finished k f (suc m) s r l c h = elim (Bool-cases (s.count == f)) [
  | inl e ↦
      let t = tick_last k f s r l (ground arith) in
      rw (ticks_dead k m (tick k s) t.1) (unfold tick in ground arith)
  | inr e ↦
      let t = tick_more k f s r l e in
      ticks_finished k f m (tick k s) t.3 t.2 (ground (arith, t)) (omega (arith, t.1))
]

start_fields :
    (s : Timer)
    → ((start s).calls ≡ s.calls) × ((start s).count ≡ s.count) × ((start s).limit ≡ s.limit)
unfolding start
start_fields s = (refl, refl, refl)

-- A timer with a limit f > 0 that ran out and is started again, with no `stop` between, is never
-- stopped by its limit again: it calls its function at each of the next n ticks, for every n.
pub calls-restart :
    (s : Timer) (f m n : ℕ)
    → s.limit ≡ some (suc f)
    → suc f ≤ m
    → let done = ticks s.intervals.next m (start (stop s)) in
      (contains done.intervals.live s.intervals.next ≡ false)
      × ((ticks done.intervals.next n (start done)).calls ≡ s.calls + suc f + n)
calls-restart s f m n l h =
    let k = s.intervals.next in
    let t = start (stop s) in
    let (same_calls, zero_count, same_limit) = stop_fields s in
    let l' : t.limit ≡ some (suc f) = cc in
    let done = ticks k m t in
    let fin = ticks_finished k f m t (stop-start-Runs s) l' (omega arith) (omega arith) in
    let never : NeverReached (start done).limit (start done).count =
      rw ((start_fields done).2, (start_fields done).1, fin.1) (omega (arith, fin.0)) in
    let run = calls-ticks_unlimited done.intervals.next n (start done) (start-Runs done) never in
    let first = calls-start-stop s f m l in
    (ground (arith, first.1), omega (arith, run.0, first.0, (start_fields done).0))
