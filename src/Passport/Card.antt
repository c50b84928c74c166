-- ===== src/Passport/Card.antt =====
-- The form of the login card and its submission: `_drawLoginForm`, `drawLoginForm`,
-- `autoFillUserId`, `changePass`, `checkMousedown`, `doSelect`, `doLogin` and `loginFailCall`. The
-- field `calls` records, in order, what is called outside: messages, focus, timers and requests.
-- The check box of `isShowRemPwdMsg` is not in this form, and is left out.
pub mod Fields
pub mod Submit
pub mod Failure
mod Choice
pub mod Typing
pub mod Examples
use Prim.Native.String.{String}
use text.Mathlib.Text.{◌==◌ as ◌==ₛ◌}
use base_service.Base.{
  ℕ, zero, suc, ◌+◌, Bool, true, false, ◌&&◌, ◌||◌, not, Option, none, some, List, [], ◌∷◌, ◌++◌,
  leb, ◌==◌, if◌then◌else◌, drop,
}
use base_service.Text.{Text, codes, ◌==ₜ◌, is_empty, starts_with, last_index_of}
use base_service.Passport.Menu.{Item, Menu, find}

pub data Call : Type 0 where
  report : String → Text → Call  -- `reportMsg`
  focus_email focus_password : Call
  delegate : Call  -- `PassportCardList[index].doLogin()`
  wait : Call  -- `drawPassportWait`
  post : Call  -- `doPost`
  request : Text → Text → Bool → Call  -- `loginHandle`
  bind_selector : Call
  navigate : String → Call
  focus_email_later change_pass_later delete_cookie_later : Call

pub record Card : Type 0 where
  pub email_value : Text  -- `emailInput.value`
  pub passwd_value : Text  -- `passwdInput.value`
  pub email : Text
  pub password_shown : Bool  -- `#password` in place of `#password1`
  pub remember : Bool  -- the class `done` of `a.fucrem`
  pub menu : Menu
  pub autopad : Text
  pub cookie : Text  -- `getCookie("pptmpuserid")`
  pub show_email_input_tip : Bool
  pub is_set_focus : Bool
  pub use_post : Bool
  pub e_interval : Bool
  pub interval_count : ℕ
  pub max_interval_count : ℕ
  pub login_status : String
  pub calls : List Call

-- The text in the empty address field, `a`.
abbrev pub placeholder : Text
placeholder = codes "昵称/邮箱/手机号"

abbrev pub call : Call → Card → Card
call k c = record c { calls = c.calls ++ k ∷ [] }

pub change_pass : Card → Card
change_pass c = call focus_password (record c { password_shown = true })

-- The fields as `_drawLoginForm` writes them.
pub draw_fields : Card → Card
draw_fields c = record c {
  email_value = placeholder;
  passwd_value = [];
  password_shown = false;
  remember = true;
}

-- The handlers that `_drawLoginForm` gives the fields.
pub blur_password : Card → Card
blur_password c = if is_empty c.passwd_value then record c { password_shown = false } else c

pub focus_cover : Card → Card
unfolding change_pass
focus_cover c = change_pass c

pub toggle_remember : Card → Card
toggle_remember c = record c { remember = not c.remember }

pub blur_email : Card → Card
blur_email c = if is_empty c.email_value then record c { email_value = placeholder } else c

-- `#email` of Mozilla's browsers, on focus.
pub focus_mozilla : Card → Card
focus_mozilla c = if c.email_value ==ₜ placeholder then record c { email_value = [] } else c

pub check_mousedown : Card → Card
check_mousedown c =
    if c.email_value ==ₜ placeholder then call focus_email (record c { email_value = [] }) else c

pub auto_fill_user_id : Card → Card
auto_fill_user_id c =
    if c.show_email_input_tip
    then record c { show_email_input_tip = false }
    else let filled = record c { email_value = if is_empty c.email then c.cookie else c.email } in
      if is_empty c.cookie then filled else call delete_cookie_later filled

-- The end of `drawLoginForm`.
pub set_focus_later : Card → Card
set_focus_later c =
    if is_empty c.email_value
    then if c.is_set_focus then call focus_email_later c else c
    else if c.is_set_focus && not (c.email_value ==ₜ placeholder)
    then call change_pass_later c
    else c

pub draw_login_form : Card → Card
draw_login_form c = set_focus_later (auto_fill_user_id (call bind_selector (draw_fields c)))

-- `c.replace(/&amp;/g, "&")`; the number counts the characters of `amp;` still to leave out.
unescaped_from : ℕ → Text → Text
unescaped_from skip [] = []
unescaped_from (suc skip) (c ∷ s) = unescaped_from skip s
unescaped_from zero (c ∷ s) =
    c ∷ unescaped_from (if c == b'&' && starts_with s (codes "amp;") then 4 else 0) s

pub unescaped : Text → Text
unfolding unescaped_from
unescaped s = unescaped_from 0 s

-- The choice of a suggestion; `rendered` is what `innerHTML` reads where a text was written to it.
pub take_label : (Text → Text) → Option Item → Card → Card
take_label rendered none c = c
take_label rendered (some x) c =
    let html = rendered x.label in
    if is_empty html || c.email_value ==ₜ placeholder
    then c
    else record c { email_value = unescaped html }

pub do_select : (Text → Text) → Card → Card
unfolding change_pass
do_select rendered c =
    let hidden = record c { menu = record (c.menu) { visible = false } } in
    let chosen = take_label rendered (find c.menu.current c.menu.items) hidden in
    if is_empty chosen.email_value || chosen.email_value ==ₜ placeholder
    then chosen
    else change_pass chosen

-- `this.autopad.lastIndexOf(e) < 0` for the part `e` of the address behind its last `@`; without an
-- `@` that is the whole address.
abbrev pub host_part : Text → Text
host_part h = elim (last_index_of h (b'@' ∷ [])) [ none ↦ h | some p ↦ drop (p + 1) h ]

pub refuses_host : Text → Text → Bool
refuses_host autopad h =
    not (is_empty autopad)
    && elim (last_index_of autopad (host_part h)) [ none ↦ true | some _ ↦ false ]

-- `doLogin` behind its first return: the address `h`, the password `g`, both stripped.
pub submit : Text → Text → Card → Card
unfolding change_pass
submit h g c =
    if is_empty h
    then call focus_email (call (report "1" []) c)
    else if refuses_host c.autopad h
    then record (call focus_email (call (report "3" c.autopad) c)) { passwd_value = [] }
    else if is_empty g
    then change_pass (record (call (report "4" []) c) { passwd_value = [] })
    else if c.use_post
    then call post c
    else call (request h g c.remember) (call wait c)

-- The assignments of `doLogin` before its tests, with the stripped address `h`.
pub begin_login : Bool → Text → Card → Card
begin_login delegated h c = record c {
  calls = if delegated then c.calls ++ delegate ∷ [] else c.calls;
  login_status = "";
  interval_count = 0;
  email = h;
}

-- `strip` trims a text; `delegated` is the truth of the first argument.
pub do_login : (Text → Text) → Bool → Card → Card
do_login strip delegated c =
    let h = strip c.email_value in
    if c.e_interval then c else submit h (strip c.passwd_value) (begin_login delegated h c)

-- `loginFailCall`; `cookies` is what `checkCookieEnabled` says.
pub login_fail_call : Bool → Card → Card
unfolding change_pass
login_fail_call cookies c =
    let d = draw_login_form c in
    if leb d.max_interval_count d.interval_count
    then change_pass (call (report "6" []) d)
    else if (d.login_status ==ₛ "error3") || (d.login_status ==ₛ "error2")
    then change_pass (call (report "5" []) d)
    else if d.login_status ==ₛ "error5"
    then call focus_password (call (report "10" []) d)
    else if d.login_status ==ₛ "error13"
    then call (navigate "http://passport.sohu.com/web/remind_activate.jsp") d
    else if not cookies
    then call focus_email (call (report "11" []) d)
    else change_pass (call (report "9" []) d)
