-- ===== src/Passport/Suggest.antt =====
-- `fillEmailSelect`: the suggestions for what is typed into the address field. A text is a list of
-- code units. `getPosition` and `offsetHeight` are the page's, and given as a `Page`.
pub mod Entries
pub mod Outcomes
pub mod Indices
pub mod Labels
pub mod Fill
pub mod Session
pub mod Examples
use base_service.Base.{
  ℕ, zero, suc, ◌+◌, ◌-◌, ◌≤◌, Bool, true, false, ◌&&◌, ◌||◌, not, Option, none, some, List, [],
  ◌∷◌, ◌++◌, ◌==◌, ltb, leb, if◌then◌else◌, length, take, drop,
}
use base_service.Base.Int.{ℤ, pos, ◌+ℤ◌, ◌-ℤ◌}
use base_service.Text.{Text, codes, ◌==ₜ◌, is_empty, starts_with, last_index_of}
use base_service.Passport.Menu.{Item, Menu}

-- `autopad`, `emailPostfix` with `none` for an entry that is no string, and `usePostFix`.
pub record Settings : Type 0 where
  pub autopad : Text
  pub email_postfix : List (Option Text)
  pub use_postfix : Bool

pub record Page : Type 0 where
  pub email_left : ℤ
  pub email_top : ℤ
  pub email_height : ℤ
  pub card_left : ℤ
  pub card_top : ℤ
  pub old_explorer : Bool  -- `document.all && !document.addEventListener`

-- The list with its place on the page.
pub record Popup : Type 0 where
  pub menu : Menu
  pub margin_left : ℤ
  pub margin_top : ℤ

pub data Error : Type 0 where
  type_error : Error

-- `[\u4e00-\u9fa5,a-zA-Z0-9-_.@]`
unfoldable pub is_address_char : ℕ → Bool
is_address_char c =
    (leb 0x4e00 c && leb c 0x9fa5)
    || c == b','
    || (leb b'a' c && leb c b'z')
    || (leb b'A' c && leb c b'Z')
    || (leb b'0' c && leb c b'9')
    || c == b'-'
    || c == b'_'
    || c == b'.'
    || c == b'@'

abbrev pub all_address_chars : Text → Bool
all_address_chars [] = true
all_address_chars (c ∷ s) = is_address_char c && all_address_chars s

-- `G`: one to a hundred such characters.
unfoldable pub is_address : Text → Bool
is_address s = all_address_chars s && leb 1 (length s) && leb (length s) 100

-- `K`, `/^1.*$/`: a 1, and no line break behind it.
unfoldable pub no_line_break : Text → Bool
no_line_break [] = true
no_line_break (c ∷ s) = not (c == 10 || c == 13 || c == 0x2028 || c == 0x2029) && no_line_break s

pub is_mobile : Text → Bool
unfolding no_line_break
is_mobile [] = false
is_mobile (c ∷ s) = c == b'1' && no_line_break s

-- The part before the last `@`, and the part behind it.
pub split_address : Text → Text × Text
split_address l = elim (last_index_of l (b'@' ∷ [])) [
  | none ↦ (l, [])
  | some h ↦ if h == length l - 1 then (take h l, []) else (take h l, drop (h + 1) l)
]

abbrev pub mobile_postfixes : List (Option Text)
mobile_postfixes = some (codes "mobile") ∷ some (codes "qq.com") ∷ some (codes "focus.cn") ∷ []

-- `z`
pub postfixes : Settings → Text → List (Option Text)
unfolding is_mobile
postfixes o l =
    if is_mobile l
    then if is_empty o.autopad then mobile_postfixes else mobile_postfixes ++ some o.autopad ∷ []
    else o.email_postfix

-- The variables of the loop: `D`, `E`, and the entries so far, of which `I` is the number, `N` the
-- first index, and `w` says whether one has the index `curDSindex`.
pub record Scan : Type 0 where
  pub whole : Bool
  pub domain : Text
  pub items : List Item

-- What the loop reads: `i`, `M`.
pub record Typed : Type 0 where
  pub name : Text
  pub host : Text

pub is_fixed : Text → Bool
is_fixed y = (y ==ₜ codes "mobile") || (y ==ₜ codes "uniqname")

-- The text of the link.
pub label : Settings → Typed → Bool → Text → Text
label o t whole y =
    if is_fixed y
    then t.name
    else if whole
    then if o.use_postfix
      then y
      else elim (last_index_of y (b'@' ∷ [])) [ none ↦ [] | some p ↦ take p y ]
    else if o.use_postfix
    then t.name ++ b'@' ∷ y
    else t.name

-- From `if (y == E)` to the end of the loop's body.
pub present : Settings → Typed → ℕ → Text → Scan → Scan
present o t j y s = if y ==ₜ s.domain then s else record s {
  whole = false;
  items = s.items ++ (record { label = label o t s.whole y; idx = j }) ∷ [];
}

-- The tests of `autopad`: `this.autopad != "" && this.autopad.lastIndexOf(y) < 0`.
pub outside_autopad : Settings → Text → Bool
outside_autopad o y =
    not (is_empty o.autopad) && elim (last_index_of o.autopad y) [ none ↦ true | some _ ↦ false ]

-- Whether the first text has the second as its last occurrence at 0: `y.lastIndexOf(M) == 0`.
abbrev pub last_at_start : Text → Text → Bool
last_at_start y m = elim (last_index_of y m) [ none ↦ false | some k ↦ k == 0 ]

-- An entry `y` with an `@` at `p`, which is an address of its own.
pub consider_whole : Settings → Typed → ℕ → Text → ℕ → Scan → Scan
consider_whole o t j y p s =
    let tail = drop (p + 1) y in
    let x = take p y in
    if outside_autopad o tail
    then s
    else if not (last_at_start x t.name)
    then s
    else present o t j y
        (record s { whole = true; domain = if x ==ₜ t.name then tail else s.domain })

pub consider_domain : Settings → Typed → ℕ → Text → Scan → Scan
consider_domain o t j y s = if outside_autopad o y then s else present o t j y s

-- The loop's body for the string `y` at index `j`.
pub consider : Settings → Typed → ℕ → Text → Scan → Scan
consider o t j y s =
    if not (is_empty t.host) && not (last_at_start y t.host)
    then s
    else elim (last_index_of y (b'@' ∷ [])) [
      | none ↦ consider_domain o t j y s
      | some zero ↦ consider_domain o t j y s
      | some (suc p) ↦ consider_whole o t j y (suc p) s
    ]

pub scan : Settings → Typed → ℕ → List (Option Text) → Scan → Scan
scan o t j [] s = s
scan o t j (none ∷ z) s = scan o t (suc j) z s
scan o t j (some y ∷ z) s = scan o t (suc j) z (consider o t j y s)

abbrev pub no_items : Scan
no_items = record { whole = false; domain = []; items = [] }

abbrev pub has_index : Option ℕ → List Item → Bool
has_index none xs = false
has_index (some k) [] = false
has_index (some k) (x ∷ xs) = k == x.idx || has_index (some k) xs

-- From `if (I > 0)` on. With no entry the old ones stay, and without those the last statement is a
-- TypeError.
pub show : List Item → Menu → Menu × Option Error
show [] m = (
  record m { visible = false; current = none },
  elim m.items [ [] ↦ some type_error | _ ∷ _ ↦ none ],
)
show (x ∷ xs) m = (
  record m {
    items = x ∷ xs;
    current = if has_index m.current (x ∷ xs) then m.current else some x.idx;
  },
  none,
)

-- What is suggested for the text `l`.
pub suggestions : Settings → Text → List Item
suggestions o l =
    let (name, host) = split_address l in
    (scan o (record { name = name; host = host }) 0 (postfixes o l) no_items).items

pub fill : Settings → Page → Text → Popup → Popup × Option Error
fill o g l p =
    if is_empty l || not (is_address l)
    then (record p { menu = record (p.menu) { visible = false } }, none)
    else let left = g.email_left -ℤ g.card_left in
      let (m, e) = show (suggestions o l) (record (p.menu) { visible = true }) in
      (
        record {
          menu = m;
          margin_left = if g.old_explorer then left +ℤ pos 1 else left;
          margin_top = g.email_top -ℤ g.card_top +ℤ g.email_height;
        },
        e,
      )
