-- ===== src/Beacon.antt =====
-- `CA` and `MSNLogin` of smc-base-server/src/main/webapp/js/tw.new.index.min.0.0.14.js: the image
-- whose address reports a visit, and the window of another login. `encodeURIComponent`, the digits of
-- the time and the host are parameters.
pub mod Query
mod Examples
use base_service.Base.{ℕ, Bool, true, false, Option, none, some, List, [], ◌∷◌, ◌++◌, if◌then◌else◌}
use base_service.Text.{Text, codes, is_empty, join}

-- The images `caImg` in the order of the page, of which `$("#caImg")` finds the first, each with its
-- address once it was set; and the windows opened.
pub record Page : Type 0 where
  pub ca_images : List (Option Text)
  pub windows : List Text

pub init : Page → Page
init p = record p { ca_images = p.ca_images ++ none ∷ [] }

-- With the host of the page's address.
pub msn_login : Text → Page → Page
msn_login host p =
    let b = codes "https://consent.live.com/Connect.aspx" in
    let a =
      codes "wrap_callback=http://"
      ++ host
      ++ codes
          "/msn/callBack&wrap_client_id=000000004004F407&wrap_scope=WL_Activities.Update,WL_Contacts.View,WL_Profiles.View,Messenger.SignIn,IMControl.IMAllowAll,WL_Activities.View,WL_Photos.View&mkt=zh-cn&wrap_client_state=1" in
    record p { windows = p.windows ++ (b ++ codes "?" ++ a) ∷ [] }

module _ (encode : Text → Text) where
  -- `document.referrer` is empty for a visit without one, and `e` may be undefined or empty.
  abbrev pub referrer_part : Text → List Text
  referrer_part d = if is_empty d then [] else (codes "r=" ++ encode d) ∷ []

  abbrev pub from_part : Option Text → List Text
  from_part none = []
  from_part (some e) = if is_empty e then [] else (codes "from=" ++ e) ∷ []

  pub parts : Text → Text → Option Text → List Text
  parts time d e = (codes "t=" ++ time) ∷ referrer_part d ++ from_part e

  -- With the value returned, `none` for undefined.
  pub q : Text → Text → Option Text → Page → Page × Option Bool
  unfolding parts
  q time d e p = elim p.ca_images [
    | [] ↦ (p, some false)
    | src ∷ rest ↦
        let c = codes "http://z.t.sohu.com/cc.gif?" ++ join (codes "&") (parts time d e) in
        (record p { ca_images = some c ∷ rest }, none)
  ]
