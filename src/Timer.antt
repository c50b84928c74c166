-- ===== src/Timer.antt =====
-- `$Timer` of smc-base-server/src/main/webapp/js/tw.new.index.min.0.0.14.js: an interval that calls
-- a function, at most `f` times if `f` is given. `d` is the callback, of which only the calls are
-- counted; it does not itself use the timer. `limit` is `f`, `count` is `e`, `handle` is `a`.
pub mod Bounded
pub mod Single
pub mod Finite
pub mod Sharing
mod Examples
use base_service.Base.{
  ℕ, zero, suc, ◌+◌, Bool, true, false, ◌&&◌, Option, none, some, ◌==◌, if◌then◌else◌,
}
use base_service.Browser.{Intervals, no_intervals, contains, set_interval, clear_interval}

pub record Timer : Type 0 where
  pub delay : ℕ
  pub limit : Option ℕ
  pub count : ℕ
  pub handle : Option ℕ
  pub calls : ℕ
  pub intervals : Intervals

abbrev pub create : ℕ → Option ℕ → Intervals → Timer
create delay limit w = record {
  delay = delay;
  limit = limit;
  count = 0;
  handle = none;
  calls = 0;
  intervals = w;
}

pub remove : Timer → Timer
remove s = record s { intervals = clear_interval s.handle s.intervals }

-- `f && e == f`
abbrev pub reached : Option ℕ → ℕ → Bool
reached none e = false
reached (some zero) e = false
reached (some (suc f)) e = e == suc f

-- The function that `start` hands to `setInterval`.
pub body : Timer → Timer
unfolding remove
body s =
    let s' = record s { calls = s.calls + 1; count = s.count + 1 } in
    if reached s'.limit s'.count then remove s' else s'

-- The browser runs the function of identifier `k`, if that is still scheduled.
pub tick : ℕ → Timer → Timer
unfolding body
tick k s = if contains s.intervals.live k then body s else s

unfoldable pub start : Timer → Timer
start s = record s { handle = some s.intervals.next; intervals = set_interval s.intervals }

pub pause : Timer → Timer
unfolding remove
pause s = remove s

pub stop : Timer → Timer
unfolding remove
stop s = record (remove s) { count = 0 }

pub set_delay : ℕ → Timer → Timer
unfolding pause start
set_delay g s = start (pause (record s { delay = g }))

-- `n` ticks of identifier `k`.
pub ticks : ℕ → ℕ → Timer → Timer
ticks k zero s = s
ticks k (suc n) s = ticks k n (tick k s)
