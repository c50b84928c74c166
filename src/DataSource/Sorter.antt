-- ===== src/DataSource/Sorter.antt =====
-- An instance of `sortBy` for the examples: insertion by the number that a property has, a stable
-- sort.
use base_service.Base.{
  ℕ, ◌≡◌, Bool, true, List, [], ◌∷◌, leb, if◌then◌else◌, Bool-cases, inl, inr, arith,
}
use mathlib.Core.List.{
  Perm, Pairwise, Pairwise-singleton, rel_of_Pairwise-cons, eq-or-mem_of_mem-cons,
}
use mathlib.Core.List.Perm
use mathlib.Core.List.Pairwise
use mathlib.Core.Logic.Or
use base_service.Text.{Text, ◌==ₜ◌}
use base_service.DataSource.{text, number, other, Item}

-- The number under the property, and 0 without one.
abbrev pub rank : Text → Item ℕ → ℕ
rank p [] = 0
rank p (f ∷ fs) =
    let rest = rank p fs in
    if f.key ==ₜ p then elim f.prop [ number k ↦ k | text _ ↦ 0 | other ↦ 0 ] else rest

abbrev pub upto : Text → Item ℕ → Item ℕ → Bool
upto p x y = leb (rank p x) (rank p y)

abbrev pub put_in : Text → Item ℕ → List (Item ℕ) → List (Item ℕ)
put_in p x [] = x ∷ []
put_in p x (y ∷ ys) = let rest = put_in p x ys in if upto p x y then x ∷ y ∷ ys else y ∷ rest

abbrev pub sort_by : Text → List (Item ℕ) → List (Item ℕ)
sort_by p [] = []
sort_by p (x ∷ xs) = put_in p x (sort_by p xs)

put_in-Perm : (p : Text) (x : Item ℕ) (ys : List (Item ℕ)) → Perm (put_in p x ys) (x ∷ ys)
put_in-Perm p x [] = Perm.refl (x ∷ [])
put_in-Perm p x (y ∷ ys) = elim (Bool-cases (upto p x y)) [
  | inl e ↦ rw e (Perm.refl (x ∷ y ∷ ys))
  | inr e ↦ rw e (Perm.trans (Perm.cons y (put_in-Perm p x ys)) (Perm.swap x y ys))
]

pub sort_by-Perm : (p : Text) (xs : List (Item ℕ)) → Perm (sort_by p xs) xs
sort_by-Perm p [] = Perm.refl []
sort_by-Perm p (x ∷ xs) =
    Perm.trans (put_in-Perm p x (sort_by p xs)) (Perm.cons x (sort_by-Perm p xs))

put_in-Pairwise :
    (p : Text) (x : Item ℕ) (ys : List (Item ℕ))
    → Pairwise (λ a b. upto p a b ≡ true) ys
    → Pairwise (λ a b. upto p a b ≡ true) (put_in p x ys)
put_in-Pairwise p x [] h = Pairwise-singleton (λ a b. upto p a b ≡ true) x
put_in-Pairwise p x (y ∷ ys) h = elim (Bool-cases (upto p x y)) [
  | inl e ↦ rw e (
      Pairwise.cons
        (λ m mem.
          Or.elim (hlevel) (eq-or-mem_of_mem-cons mem) (λ q. rw q e)
            (λ later. let r = rel_of_Pairwise-cons h later in ground arith))
        h)
  | inr e ↦ rw e (
      Pairwise.cons
        (λ m mem.
          Or.elim (hlevel) (eq-or-mem_of_mem-cons ((Perm.mem_iff (put_in-Perm p x ys)).0 mem))
            (λ q. rw q (ground arith)) (λ later. rel_of_Pairwise-cons h later))
        (put_in-Pairwise p x ys (Pairwise.of_cons h)))
]

pub sort_by-Pairwise :
    (p : Text) (xs : List (Item ℕ)) → Pairwise (λ a b. upto p a b ≡ true) (sort_by p xs)
sort_by-Pairwise p [] = Pairwise.nil
sort_by-Pairwise p (x ∷ xs) = put_in-Pairwise p x (sort_by p xs) (sort_by-Pairwise p xs)
