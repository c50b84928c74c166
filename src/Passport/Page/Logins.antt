-- ===== src/Passport/Page/Logins.antt =====
-- Each Enter and each click on the button calls `doLogin` once.
use base_service.Base.{ℕ, zero, suc, ◌+◌, ◌≡◌, false, List, [], ◌∷◌, ◌==◌, if◌then◌else◌}
use base_service.Text.{Text}
use base_service.Passport.Card.{Card, do_login}
use base_service.Passport.Page.{LoginPage, Event, key_up, button, due}

-- The Enters and the clicks.
abbrev pub asked : List Event → ℕ
asked [] = 0
asked (key_up code ∷ es) = (if code == 13 then 1 else 0) + asked es
asked (button ∷ es) = 1 + asked es
asked (due ∷ es) = asked es

module _ (strip : Text → Text) where
  pub logins_of : ℕ → Card → Card
  logins_of zero c = c
  logins_of (suc k) c = do_login strip false (logins_of k c)

  -- The page after some logins from the card.
  pub record Reached (start : Card) (total : ℕ) (p : LoginPage) : Type 0 where
    pub reached_card : p.card ≡ logins_of p.logins start
    pub reached_total : p.logins + p.timeouts ≡ total
