-- ===== src/Browser.antt =====
-- The browser's interval timers, as `window.setInterval` and `window.clearInterval` keep them: the
-- identifiers that are scheduled, and the next one to hand out. Clearing an identifier that is not
-- scheduled does nothing. Identifiers start at 1.
pub mod Contains
pub mod Sharing
use base_service.Base.{
  ℕ, ◌+◌, Bool, false, ◌||◌, Option, none, some, List, [], ◌∷◌, ◌==◌, if◌then◌else◌,
}

pub record Intervals : Type 0 where
  pub live : List ℕ
  pub next : ℕ

abbrev pub no_intervals : Intervals
no_intervals = record { live = []; next = 1 }

abbrev pub contains : List ℕ → ℕ → Bool
contains [] k = false
contains (x ∷ xs) k = x == k || contains xs k

abbrev pub remove : ℕ → List ℕ → List ℕ
remove k [] = []
remove k (x ∷ xs) = if x == k then remove k xs else x ∷ remove k xs

abbrev pub set_interval : Intervals → Intervals
set_interval w = record { live = w.next ∷ w.live; next = w.next + 1 }

-- A handle that was never set (`""`) schedules nothing and clears nothing.
abbrev pub clear_interval : Option ℕ → Intervals → Intervals
clear_interval none w = w
clear_interval (some k) w = record w { live = remove k w.live }
