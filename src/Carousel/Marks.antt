-- ===== src/Carousel/Marks.antt =====
-- The class of the switches: one switch is marked, and `change` moves the mark.
use base_service.Base.{ℕ, zero, suc, ◌≡◌, refl, ap, Bool, true, false, List, [], ◌∷◌, set}

abbrev pub unmarked : ℕ → List Bool
unmarked zero = []
unmarked (suc n) = false ∷ unmarked n

-- `n` switches of which number `k` alone is marked.
abbrev pub marked : ℕ → ℕ → List Bool
marked n k = set (unmarked n) k true

set-set {ℓ} : {A : Type ℓ} (xs : List A) (i : ℕ) (v w : A) → set (set xs i v) i w ≡ set xs i w
set-set [] i v w = refl
set-set (x ∷ xs) zero v w = refl
set-set (x ∷ xs) (suc i) v w = ap (x ∷◌) (set-set xs i v w)

set-unmarked : (n k : ℕ) → set (unmarked n) k false ≡ unmarked n
set-unmarked zero k = refl
set-unmarked (suc n) zero = refl
set-unmarked (suc n) (suc k) = ap (false ∷◌) (set-unmarked n k)

pub set-marked : (n a b : ℕ) → set (set (marked n a) a false) b true ≡ marked n b
set-marked n a b = rw (set-set, set-unmarked)

pub set-set-unmarked : (n a b : ℕ) → set (set (unmarked n) a false) b true ≡ marked n b
set-set-unmarked n a b = rw set-unmarked
