-- ===== src/Passport/Suggest/Examples.antt =====
-- What is suggested for a few texts, and the theorems at such inputs.
use base_service.Base.{◌↔◌, ◌≡◌, refl, true, false, none, some, [], ◌∷◌, All}
use base_service.Base.Int.{pos}
use base_service.Text.{codes, last_index_of}
use base_service.Passport.Menu.Moves.{Rising}
use base_service.Passport.Suggest.{
  Settings, Page, Popup, type_error, is_address, suggestions, fill, postfixes, split_address, scan,
  consider, consider_domain, consider_whole, present, outside_autopad, label, is_fixed,
}
use base_service.Passport.Suggest.Indices.{Offers, typed, suggestions-Offers}
use base_service.Passport.Suggest.Labels.{Continues, suggestions-Continues}
use base_service.Passport.Suggest.Fill.{IsReady, fill_error}
use base_service.Passport.Suggest.Session.{typing, pressing, over, act_all, act_all-IsReady}

abbrev pub settings : Settings
settings = record {
  autopad = [];
  email_postfix =
      some (codes "sohu.com") ∷ none ∷ some (codes "bob@chinaren.com") ∷ some (codes "qq.com") ∷ [];
  use_postfix = true;
}

run : Unit {0}
unfolding suggestions postfixes split_address scan consider consider_domain consider_whole present
    outside_autopad label is_fixed last_index_of
run = tt

pub suggested :
    suggestions settings (codes "bo")
    ≡ record { label = codes "bo@sohu.com"; idx = 0 }
      ∷ record { label = codes "bob@chinaren.com"; idx = 2 }
      ∷ record { label = codes "bo@qq.com"; idx = 3 }
      ∷ []
unfolding run
suggested = refl

suggestions-Offers_example :
    All
      (Offers settings (typed (codes "bo")) (postfixes settings (codes "bo")))
      (suggestions settings (codes "bo"))
    × Rising 0 (suggestions settings (codes "bo"))
suggestions-Offers_example = suggestions-Offers settings (codes "bo")

suggestions-Continues_example :
    All (Continues settings (codes "bo@s")) (suggestions settings (codes "bo@s"))
suggestions-Continues_example = suggestions-Continues settings (codes "bo@s") refl

abbrev pub page : Page
page = record {
  email_left = pos 40;
  email_top = pos 12;
  email_height = pos 20;
  card_left = pos 30;
  card_top = pos 2;
  old_explorer = false;
}

abbrev pub closed : Popup
closed = record {
  menu = record { visible = false; items = []; current = none };
  margin_left = pos 0;
  margin_top = pos 0;
}

act_all-IsReady_example :
    IsReady
      (act_all settings (typing page (codes "bo") ∷ pressing ∷ over 2 ∷ pressing ∷ []) closed).menu
act_all-IsReady_example =
    act_all-IsReady settings (typing page (codes "bo") ∷ pressing ∷ over 2 ∷ pressing ∷ []) closed
      refl refl

fill_error_example : ((fill settings page (codes "bo@x") closed).1 ≡ some type_error) ↔ (
    (is_address (codes "bo@x") ≡ true)
    × (suggestions settings (codes "bo@x") ≡ [])
    × (closed.menu.items ≡ []))
fill_error_example = fill_error settings page (codes "bo@x") closed
