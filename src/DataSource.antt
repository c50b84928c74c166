-- ===== src/DataSource.antt =====
-- `StaticDataSource` and `DataSourceTree` of smc-base-server/src/main/webapp/fuelux/sample/datasource.js
-- and datasourceTree.js: a table that is searched, filtered, sorted and cut into pages, answered after
-- a timeout. Numbers, the folding of case and Underscore's `sortBy` are parameters.
pub mod City
pub mod Cities
pub mod Query
pub mod Order
pub mod Sorter
pub mod Paging
pub mod Answers
mod Examples
use base_service.Base.{
  ℕ, zero, suc, ◌+◌, ◌-◌, ◌*◌, ◌/◌, Bool, true, false, not, ◌||◌, Option, none, some, List, [], ◌∷◌,
  ◌++◌, ltb, ◌==◌, if◌then◌else◌, length, take, drop, keep,
}
use mathlib.Core.List.{reverse}
use base_service.Text.{Text, codes, ◌==ₜ◌, is_empty, occurs}

-- A property of an item: a string, a finite number, or a value that is neither.
pub data Prop (N : Type 0) : Type 0 where
  text : Text → Prop N
  number : N → Prop N
  other : Prop N

pub record Field (N : Type 0) : Type 0 where
  pub key : Text
  pub prop : Prop N

abbrev pub Item : Type 0 → Type 0
Item N = List (Field N)

-- What JavaScript does with numbers: `toString`, `< 5000000`, and the number of a string, `none` if
-- that is not a number.
pub record Numbers (N : Type 0) : Type 0 where
  pub shown : N → Text
  pub below_5m : N → Bool
  pub of_text : Text → Option N

-- `options`; an absent text is empty, and `filter` holds the `value` of the filter.
pub record Options : Type 0 where
  pub search : Text
  pub filter : Option Text
  pub sort_property : Text
  pub sort_direction : Text
  pub page_index : ℕ
  pub page_size : ℕ

-- The argument of `callback`; `pages` is `none` where the division by the page size has no integer.
pub record Page (N : Type 0) : Type 0 where
  pub items : List (Item N)
  pub start : ℕ
  pub end : ℕ
  pub count : ℕ
  pub pages : Option ℕ
  pub page : ℕ

pub record StaticDataSource (N : Type 0) : Type 0 where
  pub formatter : Option (List (Item N) → List (Item N))
  pub columns : List Text
  pub delay : ℕ
  pub table : List (Item N)

module _ {N : Type 0} (n : Numbers N) (lower : Text → Text) where
  open n use {shown, below_5m, of_text}

  -- `_.isString(prop) || _.isFinite(prop)`, with the text that is searched.
  abbrev pub searched : Prop N → Option Text
  searched (text t) = some t
  searched (number k) = some (shown k)
  searched other = none

  abbrev pub prop_matches : Text → Prop N → Bool
  prop_matches search p = elim (searched p) [
    | none ↦ false
    | some t ↦ occurs (lower t) (lower search)
  ]

  -- The loop over an item's properties.
  abbrev pub item_matches : Text → Item N → Bool
  item_matches search [] = false
  item_matches search (f ∷ fs) = prop_matches search f.prop || item_matches search fs

  -- `item.population`, as the number that a comparison takes it for.
  abbrev pub population : Item N → Option N
  population [] = none
  population (f ∷ fs) =
      if f.key ==ₜ codes "population"
      then elim f.prop [ text t ↦ of_text t | number k ↦ some k | other ↦ none ]
      else population fs

  abbrev pub is_below : Option N → Bool
  is_below none = false
  is_below (some k) = below_5m k

  abbrev pub is_at_least : Option N → Bool
  is_at_least none = false
  is_at_least (some k) = not (below_5m k)

  abbrev pub passes : Text → Item N → Bool
  passes value x =
      if value ==ₜ codes "lt5m"
      then is_below (population x)
      else if value ==ₜ codes "gte5m"
      then is_at_least (population x)
      else true

  pub search_items : Text → List (Item N) → List (Item N)
  search_items search xs = if is_empty search then xs else keep (item_matches search) xs

  pub filter_items : Option Text → List (Item N) → List (Item N)
  filter_items none xs = xs
  filter_items (some value) xs = keep (passes value) xs

-- `_.sortBy` by a property, and the reversal.
pub sort_items :
    {N : Type 0}
    → (Text → List (Item N) → List (Item N))
    → Text
    → Text
    → List (Item N)
    → List (Item N)
sort_items sort_by property direction xs =
    if is_empty property
    then xs
    else let sorted = sort_by property xs in
      if direction ==ₜ codes "desc" then reverse sorted else sorted

-- `Math.ceil(count / size)`.
abbrev pub page_count : ℕ → ℕ → Option ℕ
page_count count size = if size == 0 then none else some ((count + (size - 1)) / size)

abbrev pub format :
    {N : Type 0} → Option (List (Item N) → List (Item N)) → List (Item N) → List (Item N)
format none xs = xs
format (some f) xs = f xs

-- From `PAGING` on, with the items found.
pub cut : {N : Type 0} → Option (List (Item N) → List (Item N)) → ℕ → ℕ → List (Item N) → Page N
cut formatter index size xs =
    let count = length xs in
    let start_index = index * size in
    let end_index = start_index + size in
    record {
      items = format formatter (take (end_index - start_index) (drop start_index xs));
      start = start_index + 1;
      end = if ltb count end_index then count else end_index;
      count = count;
      pages = page_count count size;
      page = index + 1;
    }

module _ {N : Type 0} (n : Numbers N) (lower : Text → Text)
    (sort_by : Text → List (Item N) → List (Item N)) where
  -- The items that the options ask for, in order; the table is copied before.
  pub query : List (Item N) → Options → List (Item N)
  unfolding search_items filter_items sort_items
  query table o =
      sort_items sort_by o.sort_property o.sort_direction
        (filter_items n lower o.filter (search_items n lower o.search table))

  -- What `callback` is given.
  pub respond : StaticDataSource N → Options → Page N
  unfolding query cut
  respond s o = cut s.formatter o.page_index o.page_size (query s.table o)

-- The options objects of the page, by reference, the timeouts of one source, and what the callbacks
-- were given. The timeouts have one delay, and so end in the order in which they were set; each holds
-- the reference of its options, and reads the object when it ends.
pub record Pending (N : Type 0) : Type 0 where
  pub objects : ℕ → Options
  pub waiting : List ℕ
  pub answered : List (Page N)

module _ {N : Type 0} (n : Numbers N) (lower : Text → Text)
    (sort_by : Text → List (Item N) → List (Item N)) (s : StaticDataSource N) where
  -- `data(options, callback)`.
  pub request : ℕ → Pending N → Pending N
  request r p = record p { waiting = p.waiting ++ r ∷ [] }

  -- The first timeout ends, and its callback is called.
  abbrev pub answer_first : (ℕ → Options) → List ℕ → List (Page N) → Pending N
  answer_first os [] done = record { objects = os; waiting = []; answered = done }
  answer_first os (r ∷ rs) done =
      let page = respond n lower sort_by s (os r) in
      record { objects = os; waiting = rs; answered = done ++ page ∷ [] }

  pub elapse : Pending N → Pending N
  elapse p = answer_first p.objects p.waiting p.answered

-- `data` of the tree answers any options with a copy of all its data.
pub record DataSourceTree (D : Type 0) : Type 0 where
  pub nodes : D
  pub delay : ℕ

pub respond_tree : {D : Type 0} → DataSourceTree D → Options → D
respond_tree s o = s.nodes
