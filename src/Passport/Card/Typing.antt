-- ===== src/Passport/Card/Typing.antt =====
-- From what is typed into the address field, over the list of suggestions and its keys, to the
-- address that is chosen.
use base_service.Base.{
  ℕ, zero, suc, ◌+◌, ◌<◌, ◌%◌, ◌≡◌, refl, sym, ◌∙◌, ap, inl, inr, true, false, some, List, [], ◌∷◌,
  arith, if◌then◌else◌, length, get_elem?, Bool-cases,
}
use native.Mathlib.Nat.{mod-lt}
use base_service.Text.{Text, ◌==ₜ◌, is_empty, eq_of_==}
use base_service.Passport.Menu.{Item, idx_at}
use base_service.Passport.Menu.Moves.{Rising, downs, downs-idx_at, idx_at-get_elem?}
use base_service.Passport.Suggest.{
  Settings, Page, Popup, is_address, is_address_char, has_index, suggestions, fill,
}
use base_service.Passport.Suggest.Fill.{fill-show}
use base_service.Passport.Suggest.Indices.{suggestions-Offers}
use base_service.Passport.Card.{Card, placeholder, do_select}
use base_service.Passport.Card.Fields.{escaped, do_select-label, do_select_empty}

-- The placeholder has a `/`, and is no address.
typed_other : (l : Text) → is_address l ≡ true → (l ==ₜ placeholder) ≡ false
unfolding is_address is_address_char
typed_other l a = elim (Bool-cases (l ==ₜ placeholder)) [
  | inl e ↦ absurd (cc (ap is_address (eq_of_== l placeholder e), a))
  | inr e ↦ e
]

get_elem?_below : (xs : List Item) (i : ℕ) → i < length xs → (x : Item) × (get_elem? xs i ≡ some x)
get_elem?_below [] i h = absurd (omega arith)
get_elem?_below (x ∷ xs) zero h = (x, refl)
get_elem?_below (x ∷ xs) (suc i) h = get_elem?_below xs i (omega arith)

-- The choice of the entry at place `i`.
do_select-entry :
    (c : Card) (i : ℕ) (x : Item)
    → Rising 0 c.menu.items
    → get_elem? c.menu.items i ≡ some x
    → c.menu.current ≡ some x.idx
    → (c.email_value ==ₜ placeholder) ≡ false
    → ((do_select escaped c).email_value ≡ (if is_empty x.label then c.email_value else x.label))
      × ((do_select escaped c).menu.visible ≡ false)
do_select-entry c i x r e cur t = elim (Bool-cases (is_empty x.label)) [
  | inl h ↦ rw h (do_select_empty c 0 i x r e cur h)
  | inr h ↦ let s = do_select-label c 0 i x r e cur h in rw h (s.0 ∙ rw t refl, s.1)
]

-- An address is typed that has suggestions, none with the index that was current before; the down
-- key is pressed j times, and the choice is made. The field then holds the text of the suggestion
-- j places on from the first, counted round the end, and what was typed if that text is empty; the
-- list is hidden.
pub do_select-downs :
    (o : Settings) (g : Page) (l : Text) (p : Popup) (j : ℕ) (c : Card)
    → is_address l ≡ true
    → 0 < length (suggestions o l)
    → has_index p.menu.current (suggestions o l) ≡ false
    → c.email_value ≡ l
    → let d = do_select escaped (record c { menu = downs j (fill o g l p).0.menu }) in
      (x : Item) × (get_elem? (suggestions o l) (j % length (suggestions o l)) ≡ some x)
      × (d.email_value ≡ (if is_empty x.label then l else x.label))
      × (d.menu.visible ≡ false)
do_select-downs o g l p j c a n h v =
    let xs = suggestions o l in
    let m = (fill o g l p).0.menu in
    let (items, first) = fill-show o g l p a n h in
    let rising : Rising 0 m.items = rw items (suggestions-Offers o l).1 in
    let (at, same) =
      downs-idx_at j m 0 0 rising (rw items n) (first ∙ ap (λ ys. idx_at ys 0) (sym items)) in
    let (x, e) = get_elem?_below xs (j % length xs) (mod-lt j n) in
    let cur : (downs j m).current ≡ some x.idx =
      at
      ∙ ap (λ ys. idx_at ys ((0 + j) % length ys)) items
      ∙ ap (λ (k : ℕ). idx_at xs (k % length xs)) (omega arith)
      ∙ idx_at-get_elem? xs (j % length xs) e in
    let card = record c { menu = downs j m } in
    let d =
      do_select-entry card (j % length xs) x (rw (same, items) (suggestions-Offers o l).1)
        (ap (λ ys. get_elem? ys (j % length xs)) (same ∙ items) ∙ e) cur (rw v (typed_other l a)) in
    (x, e, d.0 ∙ ap (λ t. if is_empty x.label then t else x.label) v, d.1)
