-- ===== src/Base/Round.antt =====
-- Counting round the end of a range.
use Prim.Native.Nat.{ℕ, suc, ◌+◌, ◌%◌, ◌<◌}
use mathlib.Core.Path.{◌≡◌, ap}
use mathlib.Core.Logic.{inl, inr}
use native.Mathlib.Nat.{add-mod_left}
use native.Mathlib.Omega.{arith}
use base_service.Base.Tests.{◌==◌, if◌then◌else◌, Bool-cases}

pub next-mod : (a n m : ℕ) → a < m → ((if a + 1 == m then 0 else a + 1) + n) % m ≡ (a + suc n) % m
next-mod a n m h = elim (Bool-cases (a + 1 == m)) [
  | inl e ↦
      let same : a + suc n ≡ m + n = ground arith in
      rw (e, same, add-mod_left m n) (ap (λ (k : ℕ). k % m) (omega arith))
  | inr e ↦ rw e (ap (λ (k : ℕ). k % m) (omega arith))
]
