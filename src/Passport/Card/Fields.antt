-- ===== src/Passport/Card/Fields.antt =====
-- The fields of the form, and the choice of a suggestion.
use base_service.Base.{
  ℕ, true, ◌≡◌, refl, ◌∙◌, ap, false, ◌||◌, some, [], ◌∷◌, ◌++◌, arith, ◌==◌, if◌then◌else◌,
  get_elem?, Bool-cases, inl, inr,
}
use base_service.Text.{Text, codes, ◌==ₜ◌, is_empty}
use base_service.Passport.Menu.{Item, Menu, find}
use base_service.Passport.Menu.Moves.{Rising, find-idx_at}
use base_service.Passport.Card.{
  Card, placeholder, unescaped, unescaped_from, take_label, do_select, change_pass,
}

-- A text as `innerHTML` writes it, where it has no `<`, `>` and no non-breaking space.
abbrev pub escaped : Text → Text
escaped [] = []
escaped (c ∷ s) = if c == b'&' then codes "&amp;" ++ escaped s else c ∷ escaped s

unescaped_from-escaped : (s : Text) → unescaped_from 0 (escaped s) ≡ s
unfolding unescaped_from
unescaped_from-escaped [] = refl
unescaped_from-escaped (c ∷ s) = elim (Bool-cases (c == b'&')) [
  | inl e ↦ rw e (ground (arith, unescaped_from-escaped s))
  | inr e ↦ rw e (rw e (ap (c ∷◌) (unescaped_from-escaped s)))
]

pub unescaped-escaped : (s : Text) → unescaped (escaped s) ≡ s
unfolding unescaped
unescaped-escaped s = unescaped_from-escaped s

pub escaped-nonempty : (s : Text) → is_empty s ≡ false → is_empty (escaped s) ≡ false
escaped-nonempty [] h = cc
escaped-nonempty (c ∷ s) h = ground arith

take_label-escaped :
    (x : Item) (c : Card)
    → is_empty x.label ≡ false
    → ((take_label escaped (some x) c).email_value
        ≡ (if c.email_value ==ₜ placeholder then c.email_value else x.label))
      × ((take_label escaped (some x) c).menu ≡ c.menu)
unfolding take_label unescaped
take_label-escaped x c full = elim (Bool-cases (c.email_value ==ₜ placeholder)) [
  | inl e ↦ rw (e, escaped-nonempty x.label full) (refl, refl)
  | inr e ↦ rw (e, escaped-nonempty x.label full) (unescaped_from-escaped x.label, refl)
]

-- Going on to the password changes neither the address nor the list.
password-fields :
    (c : Card)
    → let d =
        if is_empty c.email_value || c.email_value ==ₜ placeholder then c else change_pass c in
      (d.email_value ≡ c.email_value) × (d.menu.visible ≡ c.menu.visible)
unfolding change_pass
password-fields c = elim (Bool-cases (is_empty c.email_value || c.email_value ==ₜ placeholder)) [
  | inl e ↦ rw e (refl, refl)
  | inr e ↦ rw e (refl, refl)
]

-- The current suggestion is written to the address field as it reads, with every `&` restored, and
-- the list is hidden; a field that holds the placeholder is left alone.
pub do_select-label :
    (c : Card) (n i : ℕ) (x : Item)
    → Rising n c.menu.items
    → get_elem? c.menu.items i ≡ some x
    → c.menu.current ≡ some x.idx
    → is_empty x.label ≡ false
    → ((do_select escaped c).email_value
        ≡ (if c.email_value ==ₜ placeholder then c.email_value else x.label))
      × ((do_select escaped c).menu.visible ≡ false)
unfolding do_select
do_select-label c n i x r e cur full =
    let found : find c.menu.current c.menu.items ≡ some x =
      ap (λ k. find k c.menu.items) cur ∙ find-idx_at n i c.menu.items r e in
    let hidden : Card = record c { menu = record (c.menu) { visible = false } } in
    let (value, menu) = take_label-escaped x hidden full in
    let (same, same_menu) =
      password-fields (take_label escaped (find c.menu.current c.menu.items) hidden) in
    (
      same ∙ ap (λ f. (take_label escaped f hidden).email_value) found ∙ value,
      same_menu
          ∙ ap (λ f. (take_label escaped f hidden).menu.visible) found
          ∙ ap (λ m. Menu.visible m) menu,
    )

escaped-empty : (s : Text) → is_empty s ≡ true → is_empty (escaped s) ≡ true
escaped-empty [] h = refl
escaped-empty (c ∷ s) h = absurd (cc)

take_label_empty :
    (x : Item) (c : Card) → is_empty x.label ≡ true → take_label escaped (some x) c ≡ c
unfolding take_label
take_label_empty x c h = rw (escaped-empty x.label h) refl

-- A suggestion with an empty text leaves the address as it is.
pub do_select_empty :
    (c : Card) (n i : ℕ) (x : Item)
    → Rising n c.menu.items
    → get_elem? c.menu.items i ≡ some x
    → c.menu.current ≡ some x.idx
    → is_empty x.label ≡ true
    → ((do_select escaped c).email_value ≡ c.email_value)
      × ((do_select escaped c).menu.visible ≡ false)
unfolding do_select
do_select_empty c n i x r e cur h =
    let found : find c.menu.current c.menu.items ≡ some x =
      ap (λ k. find k c.menu.items) cur ∙ find-idx_at n i c.menu.items r e in
    let hidden : Card = record c { menu = record (c.menu) { visible = false } } in
    let (same, same_menu) =
      password-fields (take_label escaped (find c.menu.current c.menu.items) hidden) in
    let left = ap (λ f. take_label escaped f hidden) found ∙ take_label_empty x hidden h in
    (same ∙ ap Card.email_value left, same_menu ∙ ap (λ d. Menu.visible (Card.menu d)) left)
