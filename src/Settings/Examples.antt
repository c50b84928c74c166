-- ===== src/Settings/Examples.antt =====
-- A page that turns the counting of letters down.
use base_service.Base.{◌≡◌, refl, none, some, [], ◌∷◌}
use base_service.Text.{codes}
use base_service.Dictionary.{put}
use base_service.Settings.{
  on_chinaren, Config, defaults, number, text, entry, Window, chinaren_upload, ready,
}
use base_service.Settings.Ready.{setting}

-- The second object's values written over those of the first.
abbrev extend : Config → Config → Config
extend a [] = a
extend a (e ∷ es) = put e.key e.value (extend a es)

abbrev window : Window
window = record { config = some (entry (codes "NUM") (number 70) ∷ []); host = none }

-- The page gives no address, and lies on chinaren.com.
chinaren_address :
    setting
      (codes "UPURL")
      (ready extend (codes "http://chinaren.com/") (codes "chinaren.com") window)
    ≡ some (text chinaren_upload)
unfolding ready on_chinaren defaults
chinaren_address = refl
