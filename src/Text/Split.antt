-- ===== src/Text/Split.antt =====
-- Joining and splitting at a separator.
use base_service.Base.{ℕ, ◌≡◌, refl, ap, ◌∙◌, false, List, [], ◌∷◌, ◌++◌, arith, ==_refl, All}
use mathlib.Core.List.{append_assoc}
use base_service.Text.{Text, join, split}
use base_service.Browser.{contains}

split_single : (c : ℕ) (w : Text) → contains w c ≡ false → split c w ≡ w ∷ []
split_single c [] h = refl
split_single c (a ∷ w) h = ground (arith, split_single c w)

split-append : (c : ℕ) (w s : Text) → contains w c ≡ false → split c (w ++ c ∷ s) ≡ w ∷ split c s
split-append c [] s h = rw (==_refl c) refl
split-append c (a ∷ w) s h = ground (arith, split-append c w s)

-- Texts without the separator, joined by it, are found again by splitting at it.
pub split-join :
    (c : ℕ) (u : Text) (us : List Text)
    → All (λ w. contains w c ≡ false) (u ∷ us)
    → split c (join (c ∷ []) (u ∷ us)) ≡ u ∷ us
split-join c u [] h = split_single c u h.0
split-join c u (t ∷ us) h =
    ap (split c) (append_assoc u (c ∷ []) (join (c ∷ []) (t ∷ us)))
    ∙ split-append c u (join (c ∷ []) (t ∷ us)) h.0
    ∙ ap (u ∷◌) (split-join c t us h.1)
