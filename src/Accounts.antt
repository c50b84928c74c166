-- ===== src/Accounts.antt =====
-- The scripts of the account pages under smc-base-server/src/main/webapp: login.jsp, register.jsp and
-- modifyUser.jsp. A click reads the fields and gives the effects in their order.
pub mod Queries
mod Examples
use base_service.Base.{Bool, true, false, ◌||◌, not, List, [], ◌∷◌, ◌++◌, if◌then◌else◌}
use base_service.Text.{Text, codes, is_empty, ◌==ₜ◌}

pub data Effect : Type 0 where
  alerted : Text → Effect
  cookie_set : Text → Effect  -- `$.cookie('username', ...)`
  requested : Text → Effect  -- the `url` of `$.ajax`
  moved : Text → Effect  -- `location.href`

pub record Login : Type 0 where
  pub username : Text
  pub password : Text

pub record Registration : Type 0 where
  pub username : Text
  pub password : Text
  pub password_again : Text
  pub name : Text

pub record Modification : Type 0 where
  pub username : Text
  pub old_password : Text
  pub new_password : Text
  pub new_password_again : Text

pub logon : Login → List Effect
logon f =
    if is_empty f.username || is_empty f.password
    then alerted (codes "请输入用户名或密码") ∷ []
    else cookie_set f.username
      ∷ requested (codes "login.do?username=" ++ f.username ++ codes "&passwd=" ++ f.password)
      ∷ []

-- The field `password_again` is not read.
pub register : Registration → List Effect
register f =
    if is_empty f.username || is_empty f.password || is_empty f.name
    then alerted (codes "请输入用户名、密码或姓名") ∷ []
    else requested (
        codes "user.do?username="
        ++ f.username
        ++ codes "&passwd="
        ++ f.password
        ++ codes "&name="
        ++ f.name
        ++ codes "&action=ADD")
      ∷ []

pub modify : Modification → List Effect
modify f =
    if is_empty f.username
      || is_empty f.old_password
      || is_empty f.new_password
      || is_empty f.new_password_again
    then alerted (codes "请输入用户名或密码") ∷ []
    else if not (f.new_password ==ₜ f.new_password_again)
    then alerted (codes "两次新密码输入不一致！") ∷ []
    else requested (
        codes "user.do?username="
        ++ f.username
        ++ codes "&passwd="
        ++ f.old_password
        ++ codes "&newPasswd="
        ++ f.new_password
        ++ codes "&action=UP")
      ∷ []

-- The answer to a request of a page that goes on to `next`; `is_100` is `data == 100`. An error does
-- nothing.
abbrev pub answered : (Text → Bool) → Text → Text → List Effect
answered is_100 next answer = if is_100 answer then moved next ∷ [] else alerted answer ∷ []

pub logon_answered : (Text → Bool) → Text → List Effect
logon_answered is_100 answer = answered is_100 (codes "/base/comm/index.jsp") answer

pub register_answered : (Text → Bool) → Text → List Effect
register_answered is_100 answer = answered is_100 (codes "/base/login.jsp") answer

pub modify_answered : (Text → Bool) → Text → List Effect
modify_answered is_100 answer = answered is_100 (codes "/base/comm/index.jsp") answer

-- The other buttons of login.jsp.
abbrev pub open_register : List Effect
open_register = moved (codes "/base/register.jsp") ∷ []

abbrev pub open_modify : List Effect
open_modify = moved (codes "/base/modifyUser.jsp") ∷ []
