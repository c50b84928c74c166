-- ===== src/Dictionary.antt =====
-- Objects as dictionaries: an entry for each key, in the order in which the keys were first written.
use base_service.Base.{
  ◌≡◌, refl, sym, ap, ◌∙◌, Bool, true, false, Option, none, some, List, [], ◌∷◌, if◌then◌else◌,
  Bool-cases, inl, inr, if_true, if_false,
}
use mathlib.Core.Bool.{true≢false}
use base_service.Text.{Text, ◌==ₜ◌, eq_of_==, ==ₜ_refl}

pub record Entry {ℓ} (V : Type ℓ) : Type ℓ where
  pub key : Text
  pub value : V

pub differ : (k m n : Text) → (k ==ₜ m) ≡ false → (k ==ₜ n) ≡ true → (m ==ₜ n) ≡ true → ⊥
differ k m n h a c =
    let e = eq_of_== k n a ∙ sym (eq_of_== m n c) in
    true≢false (sym (ap (λ t. t ==ₜ m) e ∙ ==ₜ_refl m) ∙ h)

module _ {ℓ} {V : Type ℓ} where
  -- `object[n] = v`.
  abbrev pub put : Text → V → List (Entry V) → List (Entry V)
  put n v [] = record { key = n; value = v } ∷ []
  put n v (e ∷ es) = if e.key ==ₜ n then record e { value = v } ∷ es else e ∷ put n v es

  -- `object[n]`, `none` for undefined.
  abbrev pub get : Text → List (Entry V) → Option V
  get n [] = none
  get n (e ∷ es) = if e.key ==ₜ n then some e.value else get n es

  abbrev pub or_else : Option V → Option V → Option V
  or_else none o = o
  or_else (some v) o = some v

  if_same :
      (t u : Bool) (v : V) (w o : Option V)
      → t ≡ u
      → (if t then some v else o) ≡ (if u then some v else if t then w else o)
  if_same true true v w o e = refl
  if_same true false v w o e = absurd (true≢false e)
  if_same false true v w o e = absurd (true≢false (sym e))
  if_same false false v w o e = refl

  if_other :
      (t u : Bool) (v : V) (w o : Option V)
      → (t ≡ true → u ≡ true → ⊥)
      → (if t then w else if u then some v else o) ≡ (if u then some v else if t then w else o)
  if_other true true v w o n = absurd (n refl refl)
  if_other true false v w o n = refl
  if_other false true v w o n = refl
  if_other false false v w o n = refl

  pub get-put :
      (n m : Text) (v : V) (es : List (Entry V))
      → get n (put m v es) ≡ (if m ==ₜ n then some v else get n es)
  get-put n m v [] = refl
  get-put n m v (e ∷ es) = elim (Bool-cases (e.key ==ₜ m)) [
    | inl h ↦
        ap (get n) (if_true (record e { value = v } ∷ es) (e ∷ put m v es) h)
        ∙ if_same (e.key ==ₜ n) (m ==ₜ n) v (some e.value) (get n es)
            (ap (λ t. t ==ₜ n) (eq_of_== e.key m h))
    | inr h ↦
        ap (get n) (if_false (record e { value = v } ∷ es) (e ∷ put m v es) h)
        ∙ ap (λ o. if e.key ==ₜ n then some e.value else o) (get-put n m v es)
        ∙ if_other (e.key ==ₜ n) (m ==ₜ n) v (some e.value) (get n es) (differ e.key m n h)
  ]

  pub or_else_if :
      (t : Bool) (o p : Option V) (v : V)
      → or_else o (if t then some v else p) ≡ or_else (or_else o (if t then some v else none)) p
  or_else_if true none p v = refl
  or_else_if false none p v = refl
  or_else_if t (some w) p v = refl

  pub or_else-none : (o : Option V) → or_else o none ≡ o
  or_else-none none = refl
  or_else-none (some v) = refl
