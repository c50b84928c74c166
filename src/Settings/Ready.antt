-- ===== src/Settings/Ready.antt =====
-- The settings once the document is ready.
use base_service.Base.{◌≡◌, ap, ◌∙◌, ◌&&◌, Option, none, some, if◌then◌else◌, Bool-cases, inl, inr}
use base_service.Text.{Text, codes, ◌==ₜ◌}
use base_service.Dictionary.{get, or_else, get-put}
use base_service.Settings.{
  Config, Setting, text, Window, defaults, given, on_chinaren, chinaren_upload, ready,
}

abbrev pub upload_key : Text
upload_key = codes "UPURL"

-- The setting under the key, if the document is ready.
abbrev pub setting : Text → Window → Option Setting
setting k w = elim w.config [ none ↦ none | some c ↦ get k c ]

module _ (extend : Config → Config → Config) where
  -- Where `extend` writes each value of the second object over that of the first, every setting is
  -- the page's own if the page gives one and else the default, save that on a page with
  -- `chinaren.com` in its address behind the first character uploads go to upload.chinaren.com, also
  -- if the page gives another address.
  setting-ready :
      ((k : Text) (a b : Config) → get k (extend a b) ≡ or_else (get k b) (get k a))
      → (href host : Text) (w : Window) (k : Text)
      → setting k (ready extend href host w) ≡ (
          if on_chinaren href && upload_key ==ₜ k
          then some (text chinaren_upload)
          else or_else (get k (given w)) (get k (defaults href)))
  unfolding ready
  setting-ready law href host w k =
      let extended = extend (defaults href) (given w) in
      elim (Bool-cases (on_chinaren href)) [
        | inl e ↦ rw e (
            get-put k upload_key (text chinaren_upload) extended
            ∙ ap (λ o. if upload_key ==ₜ k then some (text chinaren_upload) else o)
                (law k (defaults href) (given w)))
        | inr e ↦ rw e (law k (defaults href) (given w))
      ]
