-- ===== src/Beacon/Examples.antt =====
-- A visit with a referrer and a source.
use base_service.Base.{◌≡◌, refl, false, some, [], ◌++◌}
use base_service.Text.{Text, codes, split}
use base_service.Beacon.{Page, init, q}
use base_service.Beacon.Query.{value_of, first, q-init}

-- An encoding that leaves every text as it is.
abbrev plain : Text → Text
plain t = t

abbrev empty : Page
empty = record { ca_images = []; windows = [] }

without_image : (q plain (codes "1") [] (some []) empty) ≡ (empty, some false)
unfolding q
without_image = refl

q-init_example :
    (query : Text) × (first
        (q plain (codes "17") (codes "a.com") (some (codes "home")) (init empty)).0.ca_images
      ≡ some (some (codes "http://z.t.sohu.com/cc.gif?" ++ query)))
    × (value_of (codes "t") (split b'&' query) ≡ some (codes "17"))
    × (value_of (codes "r") (split b'&' query) ≡ some (codes "a.com"))
    × (value_of (codes "from") (split b'&' query) ≡ some (codes "home"))
q-init_example =
    q-init plain (codes "17") (codes "a.com") (some (codes "home")) empty refl refl refl
