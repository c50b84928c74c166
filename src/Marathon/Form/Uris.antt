-- ===== src/Marathon/Form/Uris.antt =====
-- The list of URIs, written with commas and read back.
use base_service.Base.{
  ℕ, ◌≡◌, refl, ap, ◌∙◌, false, List, [], ◌∷◌, map, arith, ◌==◌, All, Bool-cases, inl, inr,
  if_false,
}
use base_service.Text.Split.{split-join}
use base_service.Text.{join, split, add_to_first, Text, is_empty}
use base_service.Browser.{contains}
use base_service.Marathon.Form.{strip_spaces, reject_empty, parse_uris}

-- Not empty, and without a comma or a space.
pub record IsUri (u : Text) : Type 0 where
  pub uri_text : is_empty u ≡ false
  pub uri_comma : contains u b',' ≡ false
  pub uri_space : contains u b' ' ≡ false

no_commas : (us : List Text) → All IsUri us → All (λ u. contains u b',' ≡ false) us
no_commas [] h = tt
no_commas (u ∷ us) h = (h.0.uri_comma, no_commas us h.1)

strip_none : (w : Text) → contains w b' ' ≡ false → strip_spaces w ≡ w
strip_none [] h = refl
strip_none (a ∷ w) h = ground (arith, strip_none w)

reject_none : (us : List Text) → All IsUri us → reject_empty (map strip_spaces us) ≡ us
reject_none [] h = refl
reject_none (u ∷ us) h = rw (strip_none u h.0.uri_space) (
    if_false (reject_empty (map strip_spaces us)) (u ∷ reject_empty (map strip_spaces us))
      h.0.uri_text
    ∙ ap (u ∷◌) (reject_none us h.1))

-- URIs that are not empty and have no comma and no space, written with commas between them, are
-- read back as they are.
pub parse_uris-join : (us : List Text) → All IsUri us → parse_uris (join (b',' ∷ []) us) ≡ us
unfolding parse_uris
parse_uris-join [] h = refl
parse_uris-join (u ∷ us) h =
    ap (λ ws. reject_empty (map strip_spaces ws)) (split-join b',' u us (no_commas (u ∷ us) h))
    ∙ reject_none (u ∷ us) h

abbrev Piece : Text → Type 0
Piece w = contains w b',' ≡ false

add_to_first-Piece :
    (a : ℕ) (ws : List Text) → (a == b',') ≡ false → All Piece ws → All Piece (add_to_first a ws)
add_to_first-Piece a [] e h = (rw e refl, tt)
add_to_first-Piece a (w ∷ ws) e h = (rw e h.0, h.1)

split-Piece : (s : Text) → All Piece (split b',' s)
split-Piece [] = (refl, tt)
split-Piece (a ∷ s) = elim (Bool-cases (a == b',')) [
  | inl e ↦ rw e (refl, split-Piece s)
  | inr e ↦ rw e (add_to_first-Piece a (split b',' s) e (split-Piece s))
]

strip-Piece : (w : Text) → Piece w → Piece (strip_spaces w)
strip-Piece [] h = refl
strip-Piece (a ∷ w) h = ground (arith, strip-Piece w)

strip_space : (w : Text) → contains (strip_spaces w) b' ' ≡ false
strip_space [] = refl
strip_space (a ∷ w) = ground (arith, strip_space w)

reject-IsUri : (ws : List Text) → All Piece ws → All IsUri (reject_empty (map strip_spaces ws))
reject-IsUri [] h = tt
reject-IsUri (w ∷ ws) h = elim (Bool-cases (is_empty (strip_spaces w))) [
  | inl e ↦ rw e (reject-IsUri ws h.1)
  | inr e ↦ rw e (
    record { uri_text = e; uri_comma = strip-Piece w h.0; uri_space = strip_space w },
    reject-IsUri ws h.1,
  )
]

-- Whatever is typed, each URI that is read is not empty and has no comma and no space.
pub parse_uris-IsUri : (val : Text) → All IsUri (parse_uris val)
unfolding parse_uris
parse_uris-IsUri val = reject-IsUri (split b',' val) (split-Piece val)
