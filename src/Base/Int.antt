-- ===== src/Base/Int.antt =====
-- Signed pixel offsets: integers over the native numbers, under the library's names. `negsuc n` is
-- -(n + 1). Sums and orders go through the two parts of an integer.
use Prim.Native.Nat.{ℕ, suc, ◌+◌, ◌-◌, ◌*◌, ◌≤◌}
use mathlib.Core.Path.{◌≡◌, ap}
use mathlib.Core.Bool.{Bool, ◌&&◌}
use native.Mathlib.Omega.{arith}
use base_service.Base.Tests.{leb, ◌==◌, if◌then◌else◌}

pub data ℤ : Type 0 where
  pos : ℕ → ℤ
  negsuc : ℕ → ℤ

abbrev pub pos_part : ℤ → ℕ
pos_part (pos n) = n
pos_part (negsuc n) = 0

abbrev pub neg_part : ℤ → ℕ
neg_part (pos n) = 0
neg_part (negsuc n) = suc n

-- a - b, as an integer.
abbrev pub sub_ℕ : ℕ → ℕ → ℤ
sub_ℕ a b = if leb b a then pos (a - b) else negsuc (b - a - 1)

infixl 65 ◌+ℤ◌ ◌-ℤ◌
infixl 70 ◌*ℤ◌
infix 50 ◌≤ℤ◌ ◌==ℤ◌
unfoldable pub ◌+ℤ◌ : ℤ → ℤ → ℤ
a +ℤ b = sub_ℕ (pos_part a + pos_part b) (neg_part a + neg_part b)

unfoldable pub ◌-ℤ◌ : ℤ → ℤ → ℤ
a -ℤ b = sub_ℕ (pos_part a + neg_part b) (neg_part a + pos_part b)

unfoldable pub ◌*ℤ◌ : ℤ → ℤ → ℤ
a *ℤ b =
    sub_ℕ (pos_part a * pos_part b + neg_part a * neg_part b)
      (pos_part a * neg_part b + neg_part a * pos_part b)

abbrev pub ◌≤ℤ◌ : ℤ → ℤ → Type 0
a ≤ℤ b = pos_part a + neg_part b ≤ pos_part b + neg_part a

abbrev pub ◌==ℤ◌ : ℤ → ℤ → Bool
a ==ℤ b = pos_part a == pos_part b && neg_part a == neg_part b

pub -ℤ_parts :
    (a b : ℤ)
    → pos_part (a -ℤ b) + neg_part a + pos_part b ≡ neg_part (a -ℤ b) + pos_part a + neg_part b
unfolding ◌-ℤ◌
-ℤ_parts a b = ground arith

pub eq_of_parts : (a b : ℤ) → pos_part a + neg_part b ≡ pos_part b + neg_part a → a ≡ b
eq_of_parts a b h = ground arith

-- The offset of item `k` in a strip of items `w` wide: -(k * w).
abbrev pub offset : ℕ → ℕ → ℤ
offset k w = sub_ℕ 0 (k * w)

mul_parts :
    (a : ℤ) (w : ℕ)
    → pos_part (a *ℤ pos w) + neg_part a * w ≡ neg_part (a *ℤ pos w) + pos_part a * w
unfolding ◌*ℤ◌
mul_parts a w = ground arith

-- (a - b) * w
pub diff_mul : (a b w : ℕ) → (pos a -ℤ pos b) *ℤ pos w ≡ sub_ℕ (a * w) (b * w)
diff_mul a b w = ground (
  arith,
  mul_parts (pos a -ℤ pos b) w,
  ap (λ (t : ℕ). t * w) (-ℤ_parts (pos a) (pos b)),
  eq_of_parts ((pos a -ℤ pos b) *ℤ pos w) (sub_ℕ (a * w) (b * w)),
)

-- Moving by (a - b) items from item `a` ends at item `b`.
pub offset_move : (a b w : ℕ) → offset a w +ℤ (pos a -ℤ pos b) *ℤ pos w ≡ offset b w
unfolding ◌+ℤ◌
offset_move a b w = simp (diff_mul) (ground arith)
