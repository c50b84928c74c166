-- ===== src/DataSource/Order.antt =====
-- The order of the items that a page shows.
use base_service.Base.{
  ℕ, ◌+◌, ◌-◌, ◌*◌, ◌≡◌, sym, subst, Bool, true, false, none, List, ◌++◌, take, drop,
  take-append-drop, if◌then◌else◌,
}
use mathlib.Core.List.{reverse, Pairwise, Pairwise-append, Pairwise-reverse}
use base_service.Text.{Text, codes, ◌==ₜ◌, is_empty}
use base_service.DataSource.{
  Item, Numbers, Options, StaticDataSource, filter_items, search_items, sort_items, query, cut,
  respond,
}

module _ {A : Type 0} {R : A → A → Type 0} (r_prop : (a b : A) → IsProp (R a b)) where
  Pairwise-parts : (xs ys : List A) → Pairwise R (xs ++ ys) → Pairwise R xs × Pairwise R ys
  Pairwise-parts xs ys h = let p = (Pairwise-append r_prop).0 h in (p.0, p.1)

  Pairwise-take : (n : ℕ) (xs : List A) → Pairwise R xs → Pairwise R (take n xs)
  Pairwise-take n xs h =
      (Pairwise-parts (take n xs) (drop n xs)
        (subst (Pairwise R) (sym (take-append-drop n xs)) h)).0

  Pairwise-drop : (n : ℕ) (xs : List A) → Pairwise R xs → Pairwise R (drop n xs)
  Pairwise-drop n xs h =
      (Pairwise-parts (take n xs) (drop n xs)
        (subst (Pairwise R) (sym (take-append-drop n xs)) h)).1

-- One item may stand before another: in the order of the property, or in the reverse of it.
abbrev pub Before :
    {N : Type 0} → (Text → Item N → Item N → Bool) → Text → Text → Item N → Item N → Type 0
Before upto property direction x y =
    (if direction ==ₜ codes "desc" then upto property y x else upto property x y) ≡ true

module _ {N : Type 0} (upto : Text → Item N → Item N → Bool) where
  true_prop : (p : Text) (x y : Item N) → IsProp (upto p x y ≡ true)
  true_prop p x y = hlevel

  Before-prop : (p d : Text) (x y : Item N) → IsProp (Before upto p d x y)
  Before-prop p d x y = hlevel

  turned :
      (t : Bool) (p : Text) (xs : List (Item N))
      → Pairwise (λ x y. upto p x y ≡ true) xs
      → Pairwise
          (λ x y. (if t then upto p y x else upto p x y) ≡ true)
          (if t then reverse xs else xs)
  turned true p xs h = (Pairwise-reverse (λ x y. true_prop p y x)).1 h
  turned false p xs h = h

  module _ (n : Numbers N) (lower : Text → Text)
      (sort_by : Text → List (Item N) → List (Item N)) where
    query-Before :
        (table : List (Item N)) (o : Options)
        → ((p : Text) (xs : List (Item N)) → Pairwise (λ x y. upto p x y ≡ true) (sort_by p xs))
        → is_empty o.sort_property ≡ false
        → Pairwise (Before upto o.sort_property o.sort_direction) (query n lower sort_by table o)
    unfolding query sort_items
    query-Before table o law e =
        let found = filter_items n lower o.filter (search_items n lower o.search table) in
        rw e (
          turned (o.sort_direction ==ₜ codes "desc") o.sort_property (sort_by o.sort_property found)
            (law o.sort_property found))

    -- Where sorting by a property puts the items in its order, and a source has no formatter, the
    -- items of every page that is sorted by a property stand in its order, and in the reverse order
    -- where the direction is `desc`.
    pub respond-Before :
        (s : StaticDataSource N) (o : Options)
        → ((p : Text) (xs : List (Item N)) → Pairwise (λ x y. upto p x y ≡ true) (sort_by p xs))
        → s.formatter ≡ none
        → is_empty o.sort_property ≡ false
        → Pairwise
            (Before upto o.sort_property o.sort_direction)
            (respond n lower sort_by s o).items
    unfolding respond cut
    respond-Before s o law f e =
        let r = Before-prop o.sort_property o.sort_direction in
        let xs = query n lower sort_by s.table o in
        let start = o.page_index * o.page_size in
        rw f (
          Pairwise-take r (start + o.page_size - start) (drop start xs)
            (Pairwise-drop r start xs (query-Before s.table o law e)))
