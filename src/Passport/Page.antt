-- ===== src/Passport/Page.antt =====
-- The login card on its page: `drawPassportWait`, `showMsg`, and what starts `doLogin`, the Enter key
-- in the password field and the login button, whose click is handled after ten milliseconds.
pub mod Logins
mod Examples
use base_service.Base.{
  ℕ, zero, suc, ◌+◌, ◌-◌, Bool, true, false, Option, none, some, List, [], ◌∷◌, ◌++◌, ◌==◌, ltb,
  if◌then◌else◌,
}
use base_service.Text.{Text, codes}
use base_service.Passport.Card.{Call, wait, Card, do_login, draw_login_form}

-- What the card's element holds.
pub data Content : Type 0 where
  form : Text → Content  -- the form, with the tip `div.tw_login_tip`
  waiting : Content

-- `loading` is the class `logloading` of `div.login`; `logins` counts the calls of `doLogin`.
pub record LoginPage : Type 0 where
  pub card : Card
  pub content : Content
  pub loading : Bool
  pub timeouts : ℕ
  pub logins : ℕ

-- The text of its argument is not used.
pub draw_passport_wait : LoginPage → LoginPage
draw_passport_wait p = record p { content = waiting; loading = true }

abbrev pub with_tip : Text → Content → Content
with_tip b (form tip) = form (codes "<em>" ++ b ++ codes "</em>")
with_tip b waiting = waiting

-- Without a tip on the page the text is shown nowhere.
pub show_msg : Text → LoginPage → LoginPage
show_msg b p = record p { content = with_tip b p.content; loading = false }

-- The form drawn anew, with an empty tip.
pub draw_form : LoginPage → LoginPage
draw_form p = record p { card = draw_login_form p.card; content = form [] }

-- The calls of `drawPassportWait`.
abbrev pub waits : List Call → ℕ
waits [] = 0
waits (wait ∷ ks) = suc (waits ks)
waits (_ ∷ ks) = waits ks

pub data Event : Type 0 where
  key_up : ℕ → Event
  button due : Event

module _ (strip : Text → Text) where
  -- `doLogin`, which draws the wait where it sends a request.
  pub login : LoginPage → LoginPage
  unfolding draw_passport_wait
  login p =
      let c = do_login strip false p.card in
      let q = record p { card = c; logins = p.logins + 1 } in
      if ltb (waits p.card.calls) (waits c.calls) then draw_passport_wait q else q

  abbrev pub key_password : ℕ → LoginPage → LoginPage
  key_password code p = if code == 13 then login p else p

  abbrev pub click_login : LoginPage → LoginPage
  click_login p = record p { timeouts = p.timeouts + 1 }

  abbrev pub login_due : LoginPage → LoginPage
  login_due p = if p.timeouts == 0 then p else login (record p { timeouts = p.timeouts - 1 })

  pub handle : Event → LoginPage → LoginPage
  unfolding login
  handle (key_up code) p = key_password code p
  handle button p = click_login p
  handle due p = login_due p

  pub handle_all : List Event → LoginPage → LoginPage
  handle_all [] p = p
  handle_all (e ∷ es) p = handle_all es (handle e p)

  -- The timeouts that wait end.
  pub elapse : ℕ → LoginPage → LoginPage
  unfolding handle
  elapse zero p = p
  elapse (suc k) p = elapse k (handle due p)
