-- ===== src/Carousel/Offsets.antt =====
-- The arithmetic of the offsets, and where `changeTo` moves.
use base_service.Base.{
  ℕ, zero, suc, ◌-◌, ◌*◌, ◌<◌, ◌≡◌, refl, true, false, ◌&&◌, arith, ◌==◌, if◌then◌else◌, ap,
}
use base_service.Base.Int.{
  pos, pos_part, neg_part, sub_ℕ, ◌-ℤ◌, ◌*ℤ◌, ◌==ℤ◌, offset, offset_move, diff_mul, -ℤ_parts,
  eq_of_parts,
}
use base_service.Carousel.{Config, animation_to}

-- `-(num - 1) * w`
last_offset : (n w : ℕ) → 0 < n → (pos 0 -ℤ (pos n -ℤ pos 1)) *ℤ pos w ≡ offset (n - 1) w
last_offset n w h =
    let e : pos 0 -ℤ (pos n -ℤ pos 1) ≡ pos 0 -ℤ pos (n - 1) = eq_of_parts _ _ (
      omega (
        arith,
        -ℤ_parts (pos 0) (pos n -ℤ pos 1),
        -ℤ_parts (pos n) (pos 1),
        -ℤ_parts (pos 0) (pos (n - 1)),
      )) in
    rw e (rw diff_mul (ap (λ (t : ℕ). sub_ℕ t ((n - 1) * w)) (omega arith)))

-- `-num * w`
end_offset : (n w : ℕ) → (pos 0 -ℤ pos n) *ℤ pos w ≡ offset n w
end_offset n w = rw diff_mul (ap (λ (t : ℕ). sub_ℕ t (n * w)) (omega arith))

mul_cancel : (a b w : ℕ) → 0 < w → a * w ≡ b * w → a ≡ b
mul_cancel zero zero w p h = refl
mul_cancel zero (suc b) w p h = absurd (omega arith)
mul_cancel (suc a) zero w p h = absurd (omega arith)
mul_cancel (suc a) (suc b) w p h = ap suc (mul_cancel a b w p (omega arith))

offset_parts : (k w : ℕ) → (pos_part (offset k w) ≡ 0) × (neg_part (offset k w) ≡ k * w)
offset_parts k w = ground arith

-- The tests on offsets compare the item numbers.
offset_test : (a b w : ℕ) → 0 < w → (offset a w ==ℤ offset b w) ≡ (a == b)
offset_test a b w p = ground (arith, mul_cancel a b w, offset_parts a w, offset_parts b w)

zero_test : (a w : ℕ) → 0 < w → (offset a w ==ℤ pos 0) ≡ (a == 0)
zero_test a w p = ground (arith, mul_cancel a 0 w, offset_parts a w)

-- At rest on item `now`, `changeTo(h)` moves to the offset of item `h`; from the last item to the
-- first it moves on to the clone behind the last item, and wraps.
pub animation_to-offset :
    (o : Config) (now h : ℕ)
    → 0 < o.width
    → 0 < o.num
    → animation_to o now h (offset now o.width) ≡ (
        if h == 0 && now == o.num - 1
        then record { target = offset o.num o.width; wraps = true; index = h }
        else record { target = offset h o.width; wraps = false; index = h })
unfolding animation_to
animation_to-offset o now h pw pn = rw (
  offset_move now h o.width,
  last_offset o.num o.width pn,
  end_offset o.num o.width,
  zero_test h o.width pw,
  offset_test now (o.num - 1) o.width pw,
)
