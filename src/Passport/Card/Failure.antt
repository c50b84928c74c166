-- ===== src/Passport/Card/Failure.antt =====
-- What the form holds and says after a login that failed.
use base_service.Base.{◌+◌, ◌≡◌, refl, ◌∙◌, Bool, false, List, [], ◌∷◌, ◌++◌, arith, if◌then◌else◌}
use base_service.Text.{Text, is_empty}
use base_service.Passport.Card.{
  Call, report, focus_email, focus_password, bind_selector, navigate, focus_email_later,
  change_pass_later, delete_cookie_later, Card, call, submit, begin_login, do_login,
  login_fail_call, draw_login_form, draw_fields, auto_fill_user_id, set_focus_later, change_pass,
}
use base_service.Passport.Card.Submit.{messages, messages-concat, running}

draw_login_form-fields :
    (c : Card)
    → c.show_email_input_tip ≡ false
    → ((draw_login_form c).email_value ≡ (if is_empty c.email then c.cookie else c.email))
      × ((draw_login_form c).passwd_value ≡ [])
unfolding draw_login_form draw_fields auto_fill_user_id set_focus_later
draw_login_form-fields c t = simp t (ground arith)

login_fail_call-fields :
    (cookies : Bool) (c : Card)
    → ((login_fail_call cookies c).email_value ≡ (draw_login_form c).email_value)
      × ((login_fail_call cookies c).passwd_value ≡ (draw_login_form c).passwd_value)
unfolding login_fail_call change_pass
login_fail_call-fields cookies c = ground arith

submit-email :
    (h g : Text) (c : Card)
    → ((submit h g c).show_email_input_tip ≡ c.show_email_input_tip)
      × ((submit h g c).email ≡ c.email)
unfolding submit change_pass
submit-email h g c = ground arith

do_login-email :
    (strip : Text → Text) (c : Card)
    → c.e_interval ≡ false
    → ((do_login strip false c).show_email_input_tip ≡ c.show_email_input_tip)
      × ((do_login strip false c).email ≡ strip c.email_value)
do_login-email strip c e =
    rw (running strip false c e)
      (unfold begin_login in submit-email (strip c.email_value) (strip c.passwd_value) _)

messages-auto_fill_user_id : (c : Card) → messages (auto_fill_user_id c).calls ≡ messages c.calls
unfolding auto_fill_user_id
messages-auto_fill_user_id c = ground (arith, messages-concat c.calls delete_cookie_later)

messages-set_focus_later : (c : Card) → messages (set_focus_later c).calls ≡ messages c.calls
unfolding set_focus_later
messages-set_focus_later c =
    ground
      (arith, messages-concat c.calls focus_email_later, messages-concat c.calls change_pass_later)

messages-draw_login_form : (c : Card) → messages (draw_login_form c).calls ≡ messages c.calls
unfolding draw_login_form
messages-draw_login_form c =
    messages-set_focus_later (auto_fill_user_id (call bind_selector (draw_fields c)))
    ∙ messages-auto_fill_user_id (call bind_selector (draw_fields c))
    ∙ unfold draw_fields in omega (arith, messages-concat c.calls bind_selector)

-- A message and then a move of the focus.
messages_two :
    (ks : List Call) (j k : Call)
    → messages (j ∷ []) ≡ 1
    → messages (k ∷ []) ≡ 0
    → messages ((ks ++ j ∷ []) ++ k ∷ []) ≡ messages ks + 1
messages_two ks j k p q = omega (arith, messages-concat (ks ++ j ∷ []) k, messages-concat ks j)

-- After a login that failed the form has the stripped address again and no password, if a login was
-- tried with an address that is not empty, and the tip is not still to be shown.
login_fail_call-form :
    (strip : Text → Text) (cookies : Bool) (c : Card)
    → c.e_interval ≡ false
    → c.show_email_input_tip ≡ false
    → is_empty (strip c.email_value) ≡ false
    → let d = login_fail_call cookies (do_login strip false c) in
      (d.email_value ≡ strip c.email_value) × (d.passwd_value ≡ [])
login_fail_call-form strip cookies c e t f =
    let d = do_login strip false c in
    let (tip, address) = do_login-email strip c e in
    let (v, p) = draw_login_form-fields d (tip ∙ t) in
    let (same, same') = login_fail_call-fields cookies d in (same ∙ v ∙ rw (address, f), same' ∙ p)

-- A login that failed gives exactly one message, or goes to the page for the activation.
pub login_fail_call-messages :
    (cookies : Bool) (c : Card) → messages (login_fail_call cookies c).calls ≡ messages c.calls + 1
unfolding login_fail_call change_pass
login_fail_call-messages cookies c =
    let ks = (draw_login_form c).calls in
    ground (
      arith,
      messages-draw_login_form c,
      messages_two ks (report "6" []) focus_password refl refl,
      messages_two ks (report "5" []) focus_password refl refl,
      messages_two ks (report "10" []) focus_password refl refl,
      messages-concat ks (navigate "http://passport.sohu.com/web/remind_activate.jsp"),
      messages_two ks (report "11" []) focus_email refl refl,
      messages_two ks (report "9" []) focus_password refl refl,
    )
