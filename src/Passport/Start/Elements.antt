-- ===== src/Passport/Start/Elements.antt =====
-- The elements that `init` finds.
use base_service.Base.{◌≡◌, refl, false, Option, none, some, [], ◌∷◌, if◌then◌else◌}
use base_service.Text.{Text, is_empty}
use base_service.Passport.Start.{untitled, init}

-- `init` finds the three elements of the card with every title. The anchor of the suggestions is the
-- second list of the selector if there is a title, and undefined if the title is null or empty. The
-- address to go to is never empty where the page's is not.
init-elements :
    (title : Option Text) (domain postru href : Text)
    → is_empty href ≡ false
    → let r = init title domain postru href in
      (r.ds_element ≡ some 0)
      × (r.s_element ≡ some 1)
      × (r.c_element ≡ some 2)
      × (r.ds_anchor ≡ (if untitled title then none else some (1 ∷ [])))
      × (is_empty r.postru ≡ false)
unfolding init
init-elements none domain [] href h = (refl, refl, refl, refl, h)
init-elements (some []) domain [] href h = (refl, refl, refl, refl, h)
init-elements (some (c ∷ t)) domain [] href h = (refl, refl, refl, refl, h)
init-elements none domain (d ∷ p) href h = (refl, refl, refl, refl, refl)
init-elements (some []) domain (d ∷ p) href h = (refl, refl, refl, refl, refl)
init-elements (some (c ∷ t)) domain (d ∷ p) href h = (refl, refl, refl, refl, refl)
