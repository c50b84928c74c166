-- ===== src/Passport/Card/Examples.antt =====
-- A login that is tried, and the theorems at such inputs.
use base_service.Base.{
  ◌%◌, ◌<◌, length, get_elem?, if◌then◌else◌, ◌≡◌, refl, true, false, some, [], ◌∷◌, arith,
}
use base_service.Text.{is_empty, Text, codes, last_index_of}
use base_service.Passport.Card.{
  wait, request, Card, placeholder, submit, do_login, do_select, begin_login, refuses_host,
}
use base_service.Passport.Card.Fields.{escaped}
use base_service.Passport.Card.Typing.{do_select-downs}
use base_service.Passport.Suggest.Examples.{settings, page, closed, suggested}
use base_service.Passport.Menu.{Item}
use base_service.Passport.Menu.Moves.{downs}
use base_service.Passport.Suggest.{is_address, is_address_char, suggestions, fill}

abbrev pub unstripped : Text → Text
unstripped s = s

abbrev pub filled : Card
filled = record {
  email_value = codes "bo@sohu.com";
  passwd_value = codes "secret";
  email = [];
  password_shown = true;
  remember = true;
  menu = record {
    visible = true;
    items = record { label = codes "a&b@sohu.com"; idx = 1 } ∷ [];
    current = some 1;
  };
  autopad = codes "sohu.com";
  cookie = [];
  show_email_input_tip = false;
  is_set_focus = true;
  use_post = false;
  e_interval = false;
  interval_count = 2;
  max_interval_count = 30;
  login_status = "";
  calls = [];
}

sent :
    (do_login unstripped false filled).calls
    ≡ wait ∷ request (codes "bo@sohu.com") (codes "secret") true ∷ []
unfolding do_login submit begin_login refuses_host last_index_of
sent = refl

abbrev untouched : Card
untouched = record filled { email_value = placeholder; autopad = [] }

abbrev typed : Card
typed = record filled { email_value = codes "bo" }

address : is_address (codes "bo") ≡ true
unfolding is_address is_address_char
address = refl

several : 0 < length (suggestions settings (codes "bo"))
several = rw suggested (omega arith)

do_select-downs_example :
    let xs = suggestions settings (codes "bo") in
    let d =
      do_select escaped
        (record typed { menu = downs 3 (fill settings page (codes "bo") closed).0.menu }) in
    (x : Item) × (get_elem? xs (3 % length xs) ≡ some x)
    × (d.email_value ≡ (if is_empty x.label then codes "bo" else x.label))
    × (d.menu.visible ≡ false)
do_select-downs_example =
    do_select-downs settings page (codes "bo") closed 3 typed address several refl refl
