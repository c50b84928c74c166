-- ===== src/Passport/Card/Choice.antt =====
-- A login with the suggestion that was chosen.
use base_service.Base.{ℕ, ◌≡◌, refl, ◌∙◌, ap, false, true, some, [], ◌∷◌, ◌++◌, get_elem?}
use mathlib.Core.List.{append_assoc}
use base_service.Text.{Text, ◌==ₜ◌, is_empty}
use base_service.Passport.Menu.{Item, find}
use base_service.Passport.Menu.Moves.{Rising, find-idx_at}
use base_service.Passport.Card.{
  Card, focus_password, wait, request, placeholder, take_label, do_select, change_pass, begin_login,
  refuses_host, do_login,
}
use base_service.Passport.Card.Fields.{escaped, unescaped-escaped, escaped-nonempty}
use base_service.Passport.Card.Submit.{submit_sends, running}

-- The card after the choice of an entry.
abbrev pub chosen : Item → Card → Card
chosen x c = record c {
  menu = record (c.menu) { visible = false };
  email_value = x.label;
  password_shown = true;
  calls = c.calls ++ focus_password ∷ [];
}

do_select-chosen :
    (c : Card) (x : Item)
    → find c.menu.current c.menu.items ≡ some x
    → is_empty x.label ≡ false
    → (x.label ==ₜ placeholder) ≡ false
    → (c.email_value ==ₜ placeholder) ≡ false
    → do_select escaped c ≡ chosen x c
unfolding do_select take_label change_pass
do_select-chosen c x found full named typed =
    rw (found, escaped-nonempty x.label full, typed, unescaped-escaped x.label, full, named) refl

-- Where entry x is the current one of a list whose indices rise, neither the field nor the entry
-- is the placeholder, no login runs, no form is posted, and the entry's address and the password
-- pass the tests of `doLogin`, the choice of x and a login send one request, with the entry's
-- address and the password, both stripped, after the password field was focused.
do_login-do_select :
    (strip : Text → Text) (c : Card) (n i : ℕ) (x : Item)
    → Rising n c.menu.items
    → get_elem? c.menu.items i ≡ some x
    → c.menu.current ≡ some x.idx
    → is_empty x.label ≡ false
    → (x.label ==ₜ placeholder) ≡ false
    → (c.email_value ==ₜ placeholder) ≡ false
    → c.e_interval ≡ false
    → c.use_post ≡ false
    → is_empty (strip x.label) ≡ false
    → refuses_host c.autopad (strip x.label) ≡ false
    → is_empty (strip c.passwd_value) ≡ false
    → (do_login strip false (do_select escaped c)).calls
      ≡ c.calls
        ++ focus_password ∷ wait ∷ request (strip x.label) (strip c.passwd_value) c.remember ∷ []
unfolding begin_login
do_login-do_select strip c n i x r e cur full named typed idle form h host g =
    let found : find c.menu.current c.menu.items ≡ some x =
      ap (λ k. find k c.menu.items) cur ∙ find-idx_at n i c.menu.items r e in
    let d = chosen x c in
    let sent = request (strip x.label) (strip c.passwd_value) c.remember in
    ap (λ k. (do_login strip false k).calls) (do_select-chosen c x found full named typed)
    ∙ ap Card.calls (running strip false d idle)
    ∙ submit_sends (strip x.label) (strip c.passwd_value) (begin_login false (strip x.label) d) h
        host g form
    ∙ append_assoc (c.calls ++ focus_password ∷ []) (wait ∷ []) (sent ∷ [])
    ∙ append_assoc c.calls (focus_password ∷ []) (wait ∷ sent ∷ [])
