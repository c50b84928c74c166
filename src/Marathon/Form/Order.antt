-- ===== src/Marathon/Form/Order.antt =====
-- The data of the form as an object, which keeps no order of the inputs.
use base_service.Base.{
  ◌≡◌, refl, sym, ap, ◌∙◌, Bool, true, false, Option, none, some, List, [], ◌∷◌, if◌then◌else◌,
}
use mathlib.Core.Quot
use mathlib.Core.Quot.{Quot, Quot-set}
use base_service.Text.{Text, ◌==ₜ◌}
use base_service.Dictionary.{differ, get, or_else}
use base_service.Marathon.Form.{FieldValue, Input, Entry, field_value, collect}
use base_service.Marathon.Form.Data.{last_value, get-collect}

-- The same value under every name.
abbrev pub SameObject : List Entry → List Entry → Type 0
SameObject d d' = (n : Text) → get n d ≡ get n d'

-- An object, which its names and values make up.
abbrev pub Object : Type 0
Object = Quot SameObject

-- Inputs in another order, in which those of one name stand as before.
pub data Reordered : List Input → List Input → Type 0 where
  same : (els : List Input) → Reordered els els
  later : (el : Input) (xs ys : List Input) → Reordered xs ys → Reordered (el ∷ xs) (el ∷ ys)
  swapped :
      (a b : Input) (els : List Input)
      → (a.name ==ₜ b.name) ≡ false
      → Reordered (a ∷ b ∷ els) (b ∷ a ∷ els)
  both : (xs ys zs : List Input) → Reordered xs ys → Reordered ys zs → Reordered xs zs

-- Of two names at most one is `n`.
or_else_swap :
    (o : Option FieldValue) (t u : Bool) (v w : FieldValue)
    → (t ≡ true → u ≡ true → ⊥)
    → or_else (or_else o (if t then some v else none)) (if u then some w else none)
      ≡ or_else (or_else o (if u then some w else none)) (if t then some v else none)
or_else_swap (some x) t u v w h = refl
or_else_swap none true true v w h = absurd (h refl refl)
or_else_swap none true false v w h = refl
or_else_swap none false true v w h = refl
or_else_swap none false false v w h = refl

last_value-Reordered :
    (n : Text) (xs ys : List Input) → Reordered xs ys → last_value n xs ≡ last_value n ys
last_value-Reordered n _ _ (same els) = refl
last_value-Reordered n _ _ (later el xs ys r) =
    ap (λ o. or_else o (if el.name ==ₜ n then some (field_value el) else none))
      (last_value-Reordered n xs ys r)
last_value-Reordered n _ _ (swapped a b els h) =
    or_else_swap (last_value n els) (b.name ==ₜ n) (a.name ==ₜ n) (field_value b) (field_value a)
      (λ p q. differ a.name b.name n h q p)
last_value-Reordered n _ _ (both xs ys zs p q) =
    last_value-Reordered n xs ys p ∙ last_value-Reordered n ys zs q

-- `object[n]`.
unfoldable pub value_of : Text → Object → Option FieldValue
value_of n = Quot.lift (hlevel) (get {V = FieldValue} n) (λ d d' h. h n)

-- The object that is made of the inputs.
abbrev pub object_of : List Input → Object
object_of els = Quot.mk (collect els [])

-- Inputs in another order, in which those of one name stand as before, make the same object; under
-- each name it has the value of the last input of that name, and nothing if there is none.
pub object_of-Reordered :
    (xs ys : List Input) (n : Text)
    → Reordered xs ys
    → (object_of ys ≡ object_of xs) × (value_of n (object_of ys) ≡ last_value n xs)
unfolding value_of
object_of-Reordered xs ys n r = (
  Quot.sound
      (λ m. get-collect m ys ∙ sym (last_value-Reordered m xs ys r) ∙ sym (get-collect m xs)),
  get-collect n ys ∙ sym (last_value-Reordered n xs ys r),
)
