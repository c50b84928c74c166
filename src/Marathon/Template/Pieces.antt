-- ===== src/Marathon/Template/Pieces.antt =====
-- A template and its pieces: no character is lost, and the pieces are found again.
use base_service.Base.{
  ℕ, zero, suc, ◌+◌, ◌≡◌, sym, ap, ◌∙◌, inl, inr, Bool-cases, Option-cases, some, List, [], ◌∷◌,
  ◌++◌, All, refl, none, false, ◌==◌, drop, drop-nil, length, arith,
}
use mathlib.Core.List.{append_assoc}
use base_service.Text.{Text, codes, is_empty, starts_with, starts_with-append}
use base_service.Browser.{contains}
use base_service.Marathon.Template.{Piece, literal, hole, line_ends, lazily, interpolate, pieces}

-- The text of a piece in the template.
abbrev pub source_of : Piece → Text
source_of (literal c) = c ∷ []
source_of (hole g) = codes "{{" ++ g ++ codes "}}"

abbrev pub print : List Piece → Text
print [] = []
print (p ∷ ps) = source_of p ++ print ps

drop-append : (g r : Text) (m n : ℕ) → n ≡ length g + m → drop n (g ++ r) ≡ drop m r
drop-append [] r m n h = ap (λ k. drop k r) (omega arith)
drop-append (c ∷ g) r m zero h = absurd (omega arith)
drop-append (c ∷ g) r m (suc n) h = drop-append g r m n (omega arith)

lazily-append : (s g : Text) → lazily s ≡ some g → (r : Text) × (s ≡ g ++ codes "}}" ++ r)
lazily-append [] g h = absurd (cc)
lazily-append (c ∷ s) g h = elim (Bool-cases (contains line_ends c)) [
  | inl e ↦ absurd (ground arith)
  | inr e ↦ elim (Bool-cases (starts_with s (codes "}}"))) [
    | inl b ↦ let (r, q) = starts_with-append s (codes "}}") b in (r, ground arith)
    | inr b ↦ elim (Option-cases (lazily s)) [
      | inl l ↦ absurd (ground arith)
      | inr (t, l) ↦ let (r, q) = lazily-append s t l in (r, ground arith)
    ]
  ]
]

interpolate-append :
    (t g : Text) → interpolate t ≡ some g → (r : Text) × (t ≡ codes "{{" ++ g ++ codes "}}" ++ r)
interpolate-append t g h = elim (Bool-cases (starts_with t (codes "{{"))) [
  | inl b ↦
      let (u, q) = starts_with-append t (codes "{{") b in
      let (r, k) = lazily-append u g (ground arith) in (r, q ∙ ap (λ w. codes "{{" ++ w) k)
  | inr b ↦ absurd (ground arith)
]

-- The pieces of a template, printed, are the template.
print-pieces : (n : ℕ) (t : Text) → print (pieces n t) ≡ drop n t
unfolding pieces
print-pieces n [] = sym (drop-nil n)
print-pieces (suc n) (c ∷ s) = print-pieces n s
print-pieces zero (c ∷ s) = elim (Option-cases (interpolate (c ∷ s))) [
  | inl e ↦ rw (e, print) (ap (c ∷◌) (print-pieces zero s))
  | inr (g, e) ↦
      let (r, k) = interpolate-append (c ∷ s) g e in
      let n = length g + 3 in
      let tail : s ≡ 123 ∷ g ++ 125 ∷ 125 ∷ r =
        ap (drop 1) k ∙ ap (123 ∷◌) (append_assoc g (codes "}}") r) in
      let cut : drop n (123 ∷ g ++ 125 ∷ 125 ∷ r) ≡ r =
        drop-append (123 ∷ g) (125 ∷ 125 ∷ r) 2 n (omega arith) in
      let rest : print (pieces n s) ≡ r = print-pieces n s ∙ ap (drop n) tail ∙ cut in
      rw (e, print) (ap (λ w. source_of (hole g) ++ w) rest ∙ sym k)
]

-- A character other than `{`, or an expression on one line that is not empty and has no `}`.
abbrev pub IsPlain : Piece → Type 0
IsPlain (literal c) = (c == b'{') ≡ false
IsPlain (hole g) =
    (is_empty g ≡ false) × All (λ c. (contains line_ends c ≡ false) × ((c == b'}') ≡ false)) g

lazily-close :
    (c : ℕ) (g r : Text)
    → contains line_ends c ≡ false
    → All (λ d. (contains line_ends d ≡ false) × ((d == b'}') ≡ false)) g
    → lazily (c ∷ (g ++ codes "}}") ++ r) ≡ some (c ∷ g)
lazily-close c [] r h k = rw (h, lazily) refl
lazily-close c (d ∷ g) r h k = ground (arith, lazily-close d g r k.0.0 k.1, k.0.1, h)

interpolate-print : (g r : Text) → IsPlain (hole g) → interpolate (source_of (hole g) ++ r) ≡ some g
interpolate-print [] r h = absurd (cc (h.0))
interpolate-print (c ∷ g) r h = lazily-close c g r h.1.0.0 h.1.1

pieces-drop : (n : ℕ) (t : Text) → pieces n t ≡ pieces zero (drop n t)
unfolding pieces
pieces-drop n [] = ap (pieces zero) (sym (drop-nil n))
pieces-drop zero (c ∷ s) = refl
pieces-drop (suc n) (c ∷ s) = pieces-drop n s

pieces-hole :
    (g r : Text)
    → interpolate (source_of (hole g) ++ r) ≡ some g
    → pieces zero (source_of (hole g) ++ r) ≡ hole g ∷ pieces zero r
unfolding pieces
pieces-hole g r h =
    let n = length g + 3 in
    let cut : drop n (123 ∷ (g ++ codes "}}") ++ r) ≡ r =
      ap (λ s. drop n (123 ∷ s)) (append_assoc g (codes "}}") r)
      ∙ drop-append (123 ∷ g) (125 ∷ 125 ∷ r) 2 n (omega arith) in
    rw (h, pieces)
      (ap (hole g ∷◌) (pieces-drop n (123 ∷ (g ++ codes "}}") ++ r) ∙ ap (pieces zero) cut))

-- The pieces of a template are those it was written from, where each of them is a character other
-- than `{`, or an expression on one line that is not empty and has no `}`, between two braces and
-- two braces.
pub pieces-print : (ps : List Piece) → All IsPlain ps → pieces 0 (print ps) ≡ ps
unfolding pieces
pieces-print [] h = refl
pieces-print (literal c ∷ ps) h =
    let none_here : interpolate (c ∷ print ps) ≡ none = ground (arith, h.0) in
    rw (none_here, print, pieces) (ap (literal c ∷◌) (pieces-print ps h.1))
pieces-print (hole g ∷ ps) h =
    pieces-hole g (print ps) (interpolate-print g (print ps) h.0)
    ∙ ap (hole g ∷◌) (pieces-print ps h.1)
