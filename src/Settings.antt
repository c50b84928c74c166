-- ===== src/Settings.antt =====
-- The settings `CRTWCONFIG` of smc-base-server/src/main/webapp/js/tw.new.index.min.0.0.14.js: the
-- defaults, what the page gives over them, and the address for uploads. jQuery's `extend` is a
-- parameter, and so are the page's address and host.
pub mod Ready
mod Examples
use base_service.Base.{
  ℕ, Bool, true, false, Option, none, some, List, [], ◌∷◌, ◌++◌, ltb, if◌then◌else◌,
}
use base_service.Text.{Text, codes, index_of}
use base_service.Dictionary.{Entry, put, or_else}

pub data Setting : Type 0 where
  text : Text → Setting
  number : ℕ → Setting
  flag : Bool → Setting
  function object : Setting  -- a function that does nothing, an empty object

abbrev pub Config : Type 0
Config = List (Entry Setting)

abbrev pub entry : Text → Setting → Entry Setting
entry k v = record { key = k; value = v }

-- `a`, on a page with the address `href`.
pub defaults : Text → Config
defaults href =
    entry (codes "VERSION") (text (codes "0.1."))
    ∷ entry (codes "BACK_URL") (text href)
    ∷ entry (codes "NUM") (number 140)
    ∷ entry (codes "G_NUM") (number 10)
    ∷ entry (codes "MG_NUM") (number 10)
    ∷ entry (codes "CUT") (number 200)
    ∷ entry (codes "CA") (flag true)
    ∷ entry (codes "CA_SRC") (text (codes "other"))
    ∷ entry (codes "CA_SN") (text (codes ""))
    ∷ entry (codes "UPURL") (text (codes "http://up.t.sohu.com/twitter/upload.php"))
    ∷ entry (codes "C_AUTO") (flag true)
    ∷ entry (codes "C_CACHE") (flag false)
    ∷ entry (codes "C_TIP") (flag false)
    ∷ entry (codes "C_ADD") (flag true)
    ∷ entry (codes "C_SYS_TIP") (text (codes ""))
    ∷ entry (codes "C_ADD_SUCCESS") function
    ∷ entry (codes "TW_DEL_SUCCESS") function
    ∷ entry (codes "ST_URL") (text (codes "http://s6.cr.itc.cn/user"))
    ∷ entry (codes "TOPIC_SEARCH_URL") (text (codes "/search/topic_inc.jsp"))
    ∷ entry (codes "UPLOAD_SWF") (text (codes "http://t.sohu.com/t/swfupload.swf"))
    ∷ entry (codes "C_SWF") (text (codes "http://s1.cr.itc.cn/img/s/i.gif"))
    ∷ entry (codes "I_SWF") (text (codes "http://s2.cr.itc.cn/img/t/iptfile4.png"))
    ∷ entry (codes "AT_ADD") (flag false)
    ∷ entry (codes "SUB_PG") (flag false)
    ∷ entry (codes "SUB_PG_NUM") (number 5)
    ∷ entry (codes "PR_EMOTE") (text (codes ""))
    ∷ entry (codes "MAP") (text (codes "http://s2.cr.itc.cn/twitter/map/1.4/"))
    ∷ entry (codes "MAP_ENGINE") (text (codes "http://lspengine.go2map.com/EngineV5/Engine"))
    ∷ entry (codes "MAP_ICON") (text (codes "/t/"))
    ∷ entry (codes "IPLOC") (text (codes "http://s1.cr.itc.cn/twitter/iploc/cr.iploc.min.js"))
    ∷ entry (codes "FED") (flag false)
    ∷ entry (codes "FT") (number 5000)
    ∷ entry (codes "UPDATE_MODE") (text (codes "direct"))
    ∷ entry (codes "SAD") (text (codes "/t/twAction.jsp"))
    ∷ entry (codes "ADP") object
    ∷ entry (codes "RP_P") object
    ∷ entry (codes "STATIC_GROUPBY") (flag true)
    ∷ entry (codes "USE_MEMO") (flag false)
    ∷ entry (codes "LAZYLOAD_ONCE") (flag false)
    ∷ entry (codes "ADD_REPLY_FUNC") (text (codes ""))
    ∷ []

-- `window.CRTWCONFIG` and `window.HOST`.
pub record Window : Type 0 where
  pub config : Option Config
  pub host : Option Text

abbrev pub given : Window → Config
given w = elim w.config [ none ↦ [] | some c ↦ c ]

-- `href.indexOf("chinaren.com") > 0`
unfoldable pub on_chinaren : Text → Bool
on_chinaren href = elim (index_of href (codes "chinaren.com")) [ none ↦ false | some i ↦ ltb 0 i ]

abbrev pub chinaren_upload : Text
chinaren_upload = codes "http://upload.chinaren.com/twitter/upload.php"

-- The function given to `b(function)`, once the document is ready.
pub ready : (Config → Config → Config) → Text → Text → Window → Window
ready extend href host w =
    let extended = extend (defaults href) (given w) in
    record {
      config = some (
          if on_chinaren href
          then put (codes "UPURL") (text chinaren_upload) extended
          else extended);
      host = some (codes "http://" ++ host);
    }
