-- ===== src/Text.antt =====
-- JavaScript strings as lists of code units, with the methods that the pages call:
-- `lastIndexOf`, `indexOf`, `split` and `join`, `substr` and `substring` from the front and to the end,
-- and comparison.
pub mod Split
use Prim.Native.Char.{code}
use Prim.Native.String.{String}
use base_service.Base.{
  ℕ, suc, ◌≡◌, refl, Bool, true, false, ◌&&◌, ◌||◌, Option, none, some, List, [], ◌∷◌, ◌++◌, arith,
  ◌==◌, if◌then◌else◌,
}

abbrev pub Text : Type 0
Text = List ℕ

abbrev pub codes : String → Text
codes String.[] = []
codes (String.◌∷◌ c s) = code c ∷ codes s

infix 50 ◌==ₜ◌
abbrev pub ◌==ₜ◌ : Text → Text → Bool
[] ==ₜ [] = true
[] ==ₜ (_ ∷ _) = false
(_ ∷ _) ==ₜ [] = false
(a ∷ s) ==ₜ (b ∷ t) = a == b && s ==ₜ t

pub eq_of_== : (s t : Text) → (s ==ₜ t) ≡ true → s ≡ t
eq_of_== [] [] h = refl
eq_of_== [] (_ ∷ _) h = cc
eq_of_== (_ ∷ _) [] h = cc
eq_of_== (a ∷ s) (b ∷ t) h = ground (arith, eq_of_== s t)

pub ==ₜ_refl : (s : Text) → (s ==ₜ s) ≡ true
==ₜ_refl [] = refl
==ₜ_refl (a ∷ s) = ground (arith, ==ₜ_refl s)

abbrev pub is_empty : Text → Bool
is_empty [] = true
is_empty (_ ∷ _) = false

-- Whether the second text is the beginning of the first.
abbrev pub starts_with : Text → Text → Bool
starts_with s [] = true
starts_with [] (_ ∷ _) = false
starts_with (a ∷ s) (b ∷ t) = a == b && starts_with s t

pub starts_with-append : (s t : Text) → starts_with s t ≡ true → (r : Text) × (s ≡ t ++ r)
starts_with-append s [] h = (s, refl)
starts_with-append [] (b ∷ t) h = absurd (cc)
starts_with-append (a ∷ s) (b ∷ t) h =
    let (r, e) = starts_with-append s t (ground arith) in (r, ground arith)

-- `s.lastIndexOf(t)`; `none` is -1.
unfoldable pub last_index_of : Text → Text → Option ℕ
last_index_of [] t = if is_empty t then some 0 else none
last_index_of (a ∷ s) t = elim (last_index_of s t) [
  | some k ↦ some (suc k)
  | none ↦ if starts_with (a ∷ s) t then some 0 else none
]

-- Position 0 is the last one only if the text stands there.
pub starts_with_of_last_index : (s t : Text) → last_index_of s t ≡ some 0 → starts_with s t ≡ true
unfolding last_index_of
starts_with_of_last_index [] [] h = refl
starts_with_of_last_index [] (_ ∷ _) h = cc
starts_with_of_last_index (a ∷ s) t h = ground arith

-- `s.indexOf(t)`; `none` is -1.
abbrev pub index_of : Text → Text → Option ℕ
index_of [] t = if is_empty t then some 0 else none
index_of (a ∷ s) t =
    let rest = index_of s t in
    if starts_with (a ∷ s) t then some 0 else elim rest [ none ↦ none | some k ↦ some (suc k) ]

-- `s.indexOf(t) >= 0`.
abbrev pub occurs : Text → Text → Bool
occurs [] t = is_empty t
occurs (a ∷ s) t = starts_with (a ∷ s) t || occurs s t

-- `ts.join(sep)`.
abbrev pub join : Text → List Text → Text
join sep [] = []
join sep (s ∷ []) = s
join sep (s ∷ t ∷ ts) = s ++ sep ++ join sep (t ∷ ts)

abbrev pub add_to_first : ℕ → List Text → List Text
add_to_first a [] = (a ∷ []) ∷ []
add_to_first a (w ∷ ws) = (a ∷ w) ∷ ws

-- `s.split(c)` for a separator of one character.
abbrev pub split : ℕ → Text → List Text
split c [] = [] ∷ []
split c (a ∷ s) = let rest = split c s in if a == c then [] ∷ rest else add_to_first a rest
