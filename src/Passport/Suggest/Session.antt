-- ===== src/Passport/Suggest/Session.antt =====
-- The list of suggestions while an address is typed and entries are chosen.
use base_service.Base.{
  ℕ, zero, suc, ◌<◌, ◌≡◌, sym, inl, inr, false, Option, none, some, List, [], ◌∷◌, arith, get_elem?,
  length, Option-cases,
}
use base_service.Text.{Text}
use base_service.Passport.Menu.{Item, Menu, down, hover}
use base_service.Passport.Menu.Moves.{idx_at-get_elem?}
use base_service.Passport.Suggest.{Settings, Page, Popup, fill}
use base_service.Passport.Suggest.Fill.{IsReady, fill-IsReady, down-IsReady}

-- A text is typed on a page, the down key is pressed, or the pointer goes over an entry.
pub data Act : Type 0 where
  typing : Page → Text → Act
  pressing : Act
  over : ℕ → Act

abbrev pub hovered : Option Item → Menu → Menu
hovered none m = m
hovered (some x) m = hover x m

pub act : Settings → Act → Popup → Popup
act o (typing g l) p = (fill o g l p).0
act o pressing p = record p { menu = down p.menu }
act o (over i) p = record p { menu = hovered (get_elem? p.menu.items i) p.menu }

pub act_all : Settings → List Act → Popup → Popup
act_all o [] p = p
act_all o (a ∷ ks) p = act_all o ks (act o a p)

get_elem?_lt : (xs : List Item) (i : ℕ) {x : Item} → get_elem? xs i ≡ some x → i < length xs
get_elem?_lt [] i e = absurd (cc)
get_elem?_lt (y ∷ xs) zero e = omega arith
get_elem?_lt (y ∷ xs) (suc i) e = omega (arith, get_elem?_lt xs i e)

hover-IsReady :
    (i : ℕ) (x : Item) (m : Menu) → get_elem? m.items i ≡ some x → IsReady m → IsReady (hover x m)
unfolding hover
hover-IsReady i x m e h = record {
  rising = h.rising;
  chosen = λ _. (i, get_elem?_lt m.items i e, sym (idx_at-get_elem? m.items i e));
}

act-IsReady : (o : Settings) (a : Act) (p : Popup) → IsReady p.menu → IsReady (act o a p).menu
unfolding act
act-IsReady o (typing g l) p h = fill-IsReady o g l p h
act-IsReady o pressing p h = down-IsReady p.menu h
act-IsReady o (over i) p h = elim (Option-cases (get_elem? p.menu.items i)) [
  | inl e ↦ rw e h
  | inr (x, e) ↦ rw e (hover-IsReady i x p.menu e h)
]

IsReady-act_all :
    (o : Settings) (ks : List Act) (p : Popup) → IsReady p.menu → IsReady (act_all o ks p).menu
unfolding act_all
IsReady-act_all o [] p h = h
IsReady-act_all o (a ∷ ks) p h = IsReady-act_all o ks (act o a p) (act-IsReady o a p h)

-- From an empty list that is hidden, after any typing, down keys and moves of the pointer over the
-- entries, the indices of the list rise, and while it is shown the current index is that of an entry.
pub act_all-IsReady :
    (o : Settings) (ks : List Act) (p : Popup)
    → p.menu.visible ≡ false
    → p.menu.items ≡ []
    → IsReady (act_all o ks p).menu
act_all-IsReady o ks p v e =
    IsReady-act_all o ks p (record { rising = rw e tt; chosen = λ s. absurd (cc (v, s)) })
