-- ===== src/Browser/Contains.antt =====
-- Numbers in a list, after a removal and in a part of it.
use base_service.Base.{
  ℕ, ◌≡◌, ◌≢◌, refl, sym, ◌∙◌, true, false, List, [], ◌∷◌, ◌++◌, ap, arith, ◌==◌, inl, inr,
  Bool-cases,
}
use base_service.Browser.{contains, remove}

pub contains-remove_same : (k : ℕ) (xs : List ℕ) → contains (remove k xs) k ≡ false
contains-remove_same k [] = refl
contains-remove_same k (x ∷ xs) = ground (arith, contains-remove_same k xs)

pub contains-remove : (i k : ℕ) (xs : List ℕ) → k ≢ i → contains (remove i xs) k ≡ contains xs k
contains-remove i k [] h = refl
contains-remove i k (x ∷ xs) h = ground (arith, contains-remove i k xs h)

pub remove-append : (i : ℕ) (xs ys : List ℕ) → remove i (xs ++ ys) ≡ remove i xs ++ remove i ys
remove-append i [] ys = refl
remove-append i (x ∷ xs) ys = elim (Bool-cases (x == i)) [
  | inl e ↦ rw e (remove-append i xs ys)
  | inr e ↦ rw e (ap (x ∷◌) (remove-append i xs ys))
]

-- Every number of the first list is in the second.
abbrev pub IsWithin : List ℕ → List ℕ → Type 0
IsWithin xs ys = (k : ℕ) → contains xs k ≡ true → contains ys k ≡ true

pub IsWithin-append_right : (xs ys : List ℕ) → IsWithin ys (xs ++ ys)
IsWithin-append_right [] ys k h = h
IsWithin-append_right (x ∷ xs) ys k h = ground (arith, IsWithin-append_right xs ys k h)

-- What is in the list after a removal is another number, of the list before.
contains-removed :
    (i k : ℕ) (xs : List ℕ) → contains (remove i xs) k ≡ true → (k ≢ i) × (contains xs k ≡ true)
contains-removed i k xs e = elim (Bool-cases (k == i)) [
  | inl q ↦ let p : k ≡ i = ground arith in absurd (cc (e, contains-remove_same k xs, p))
  | inr q ↦ let n : k ≢ i = ground arith in (n, sym (contains-remove i k xs n) ∙ e)
]

pub IsWithin-remove :
    (i : ℕ) (xs ys : List ℕ) → IsWithin xs ys → IsWithin (remove i xs) (remove i ys)
IsWithin-remove i xs ys h k e =
    let c = contains-removed i k xs e in contains-remove i k ys c.0 ∙ h k c.1

-- What is left without the first of them.
pub IsWithin-rest : (i : ℕ) (xs ys : List ℕ) → IsWithin xs (i ∷ ys) → IsWithin (remove i xs) ys
IsWithin-rest i xs ys h k e =
    let c = contains-removed i k xs e in let n = c.0 in ground (arith, h k c.1)

pub IsWithin-skip :
    (i : ℕ) (xs ys : List ℕ) → contains xs i ≡ false → IsWithin xs (i ∷ ys) → IsWithin xs ys
IsWithin-skip i xs ys n h k e = elim (Bool-cases (i == k)) [
  | inl q ↦ let p : i ≡ k = ground arith in absurd (cc (e, n, p))
  | inr q ↦ ground (arith, h k e)
]

pub IsWithin-nil : (xs : List ℕ) → IsWithin xs [] → xs ≡ []
IsWithin-nil [] h = refl
IsWithin-nil (x ∷ xs) h = absurd (cc (h x (ground arith)))
