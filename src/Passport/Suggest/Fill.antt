-- ===== src/Passport/Suggest/Fill.antt =====
-- The list after `fillEmailSelect`.
use base_service.Base.{
  ◌↔◌, ℕ, suc, ◌+◌, ◌<◌, ◌≡◌, refl, sym, ◌∙◌, inl, inr, true, false, ◌||◌, not, Option, none, some,
  List, [], ◌∷◌, arith, ◌==◌, if◌then◌else◌, length, Bool-cases,
}
use base_service.Text.{Text, is_empty}
use base_service.Passport.Menu.{Item, Menu, idx_at, down}
use base_service.Passport.Menu.Moves.{Rising, visible-down, down-idx_at, items-down}
use base_service.Passport.Suggest.{
  Settings, Page, Popup, type_error, is_address, has_index, show, suggestions, fill,
}
use base_service.Passport.Suggest.Indices.{suggestions-Offers}

-- The indices rise, and while the list is shown the current index is that of an entry.
pub record IsReady (m : Menu) : Type 0 where
  pub rising : Rising 0 m.items
  pub chosen : m.visible ≡ true → (i : ℕ) × (i < length m.items) × (m.current ≡ idx_at m.items i)

has_index-idx_at :
    (cur : Option ℕ) (xs : List Item)
    → has_index cur xs ≡ true
    → (i : ℕ) × (i < length xs) × (cur ≡ idx_at xs i)
has_index-idx_at none xs h = absurd (cc)
has_index-idx_at (some k) [] h = absurd (cc)
has_index-idx_at (some k) (x ∷ xs) h = elim (Bool-cases (k == x.idx)) [
  | inl e ↦ (0, omega arith, ground arith)
  | inr e ↦
      let (i, lt, same) = has_index-idx_at (some k) xs (ground arith) in (suc i, omega arith, same)
]

show_fresh : (xs : List Item) (m : Menu) → Rising 0 xs → Rising 0 m.items → IsReady (show xs m).0
unfolding show
show_fresh [] m r r' = record { rising = r'; chosen = λ e. absurd (cc) }
show_fresh (x ∷ xs) m r r' = record {
  rising = r;
  chosen = λ _. elim (Bool-cases (has_index m.current (x ∷ xs))) [
    | inl e ↦ rw e (has_index-idx_at m.current (x ∷ xs) e)
    | inr e ↦ rw e (0, omega arith, refl)
  ];
}

-- Whatever is typed, the list stays ready.
pub fill-IsReady :
    (o : Settings) (g : Page) (l : Text) (p : Popup)
    → IsReady p.menu
    → IsReady (fill o g l p).0.menu
unfolding fill
fill-IsReady o g l p h = elim (Bool-cases (is_empty l || not (is_address l))) [
  | inl e ↦ rw e (record { rising = h.rising; chosen = λ f. absurd (cc) })
  | inr e ↦ rw e (
      show_fresh (suggestions o l) (record (p.menu) { visible = true }) (suggestions-Offers o l).1
        h.rising)
]

-- The down key keeps the list ready.
pub down-IsReady : (m : Menu) → IsReady m → IsReady (down m)
down-IsReady m h = record {
  rising = rw (items-down m) h.rising;
  chosen = λ f.
      let (i, lt, c) = h.chosen (sym (visible-down m) ∙ f) in
      let next = if i + 1 == length m.items then 0 else i + 1 in
      (next, rw (items-down m) (ground arith), rw (items-down m) (down-idx_at m 0 i h.rising lt c));
}

is_address-nonempty : (l : Text) → is_address l ≡ true → is_empty l ≡ false
unfolding is_address
is_address-nonempty [] h = absurd (ground arith)
is_address-nonempty (_ ∷ _) h = refl

not_both : (l : Text) → (is_empty l || not (is_address l)) ≡ true → is_address l ≡ true → ⊥
not_both l e a = ground (arith, is_address-nonempty l a)

address : (l : Text) → (is_empty l || not (is_address l)) ≡ false → is_address l ≡ true
address l e = ground arith

show_error :
    (xs : List Item) (m : Menu) → ((show xs m).1 ≡ some type_error) ↔ ((xs ≡ []) × (m.items ≡ []))
unfolding show
show_error [] m = (λ e. (refl, ground arith), λ e. ground arith)
show_error (x ∷ xs) m = (λ e. absurd (cc), λ e. absurd (cc (e.0)))

-- The TypeError at `firstChild.rows`: exactly when an address is typed that has no suggestion, and
-- the list is still as empty as `init` left it.
pub fill_error :
    (o : Settings) (g : Page) (l : Text) (p : Popup)
    → ((fill o g l p).1 ≡ some type_error)
      ↔ ((is_address l ≡ true) × (suggestions o l ≡ []) × (p.menu.items ≡ []))
unfolding fill
fill_error o g l p = elim (Bool-cases (is_empty l || not (is_address l))) [
  | inl e ↦ rw e (λ f. absurd (cc), λ h. absurd (not_both l e h.0))
  | inr e ↦
      let (to, from) = show_error (suggestions o l) (record (p.menu) { visible = true }) in
      rw e (λ f. (address l e, (to f).0, (to f).1), λ h. from (h.1, h.2))
]

show_new :
    (xs : List Item) (m : Menu)
    → 0 < length xs
    → has_index m.current xs ≡ false
    → ((show xs m).0.items ≡ xs) × ((show xs m).0.current ≡ idx_at xs 0)
unfolding show
show_new [] m n h = absurd (omega arith)
show_new (x ∷ xs) m n h = (refl, rw h refl)

-- The list after an address was typed that has suggestions, none of which has the current index.
pub fill-show :
    (o : Settings) (g : Page) (l : Text) (p : Popup)
    → is_address l ≡ true
    → 0 < length (suggestions o l)
    → has_index p.menu.current (suggestions o l) ≡ false
    → ((fill o g l p).0.menu.items ≡ suggestions o l)
      × ((fill o g l p).0.menu.current ≡ idx_at (suggestions o l) 0)
unfolding fill
fill-show o g l p a n h = elim (Bool-cases (is_empty l || not (is_address l))) [
  | inl e ↦ absurd (not_both l e a)
  | inr e ↦ rw e (show_new (suggestions o l) (record (p.menu) { visible = true }) n h)
]
