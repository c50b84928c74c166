-- ===== src/Marathon/Filter.antt =====
-- `fastLiveFilter` of smc-base-server/src/main/webapp/marathon/js/marathon.js, at the timeout that
-- the router leaves out, on the items that the page had when it was called. The folding of case and
-- the collection's `get` are parameters.
pub mod Rounds
pub mod History
pub mod Pending
pub mod Settled
mod Examples
use base_service.Base.{
  ℕ, ◌+◌, Bool, true, false, Option, none, some, List, [], ◌∷◌, ◌++◌, length, if◌then◌else◌,
}
use base_service.Text.{Text, codes, ◌==ₜ◌, occurs}
use base_service.Browser.{Intervals, no_intervals, contains, remove, set_interval, clear_interval}

-- An element `.app-list-item`: the text of its `h1`, which the template always has, its second class,
-- and `style.display`.
pub record AppElement : Type 0 where
  pub heading : Text
  pub class_1 : Option Text
  pub display : Text

abbrev pub hidden : Text
hidden = codes "none"

abbrev pub first_display : List AppElement → Text
first_display [] = codes "block"
first_display (x ∷ _) = x.display

-- The variables of the plugin, the value of the input, the timeouts, and what `callback` was last
-- given: the number of the items shown and, except at the start, the models found.
pub record LiveFilter (M : Type 0) : Type 0 where
  pub value : Text
  pub lis : List AppElement
  pub old_display : Text
  pub key_timeout : Option ℕ
  pub timeouts : Intervals
  pub num_shown : ℕ
  pub results : Option (List (Option M))

-- The loop's variables.
pub record Loop (M : Type 0) : Type 0 where
  pub done : List AppElement
  pub num : ℕ
  pub show : List (Option M)

pub data Event : Type 0 where
  keydown changed : Event
  typed : Text → Event
  due : ℕ → Event

module _ {M : Type 0} (lower : Text → Text) (get : Option Text → Option M) where
  abbrev pub matches : Text → AppElement → Bool
  matches filter x = occurs (lower x.heading) filter

  -- One round of the loop.
  pub visit : Text → Text → AppElement → Loop M → Loop M
  visit filter old x l =
      if matches filter x
      then record {
        done = l.done ++ (if x.display ==ₜ hidden then record x { display = old } else x) ∷ [];
        num = l.num + 1;
        show = l.show ++ get x.class_1 ∷ [];
      }
      else record l {
        done = l.done ++ (if x.display ==ₜ hidden then x else record x { display = hidden }) ∷ [];
      }

  pub visit_all : Text → Text → List AppElement → Loop M → Loop M
  unfolding visit
  visit_all filter old [] l = l
  visit_all filter old (x ∷ xs) l = visit_all filter old xs (visit filter old x l)

  pub start : List AppElement → Text → LiveFilter M
  start xs v = record {
    value = v;
    lis = xs;
    old_display = first_display xs;
    key_timeout = none;
    timeouts = no_intervals;
    num_shown = length xs;
    results = none;
  }

  -- The handler of `change`.
  pub change : LiveFilter M → LiveFilter M
  unfolding visit_all
  change s =
      let l =
        visit_all (lower s.value) s.old_display s.lis (record { done = []; num = 0; show = [] }) in
      record s { lis = l.done; num_shown = l.num; results = some l.show }

  pub press : LiveFilter M → LiveFilter M
  press s =
      let w = clear_interval s.key_timeout s.timeouts in
      record s { key_timeout = some w.next; timeouts = set_interval w }

  -- A timeout that is due runs once.
  pub elapse : ℕ → LiveFilter M → LiveFilter M
  unfolding change
  elapse k s =
      if contains s.timeouts.live k
      then change (record s { timeouts = record s.timeouts { live = remove k s.timeouts.live } })
      else s

  pub handle : Event → LiveFilter M → LiveFilter M
  unfolding change press elapse
  handle keydown s = press s
  handle changed s = change s
  handle (typed v) s = record s { value = v }
  handle (due k) s = elapse k s

  unfoldable pub handle_all : List Event → LiveFilter M → LiveFilter M
  handle_all [] s = s
  handle_all (e ∷ es) s = handle_all es (handle e s)
