-- ===== src/DataSource/Query.antt =====
-- The items that a query finds: those of the table that pass the search and the filter.
use base_service.Base.{Bool, true, Option, none, some, List, if◌then◌else◌}
use mathlib.Core.List.{Perm}
use mathlib.Core.List.Perm
use base_service.Text.{Text, is_empty}
use base_service.DataSource.{Item, Numbers, item_matches, passes}

module _ {N : Type 0} (n : Numbers N) (lower : Text → Text) where
  -- Whether an item is asked for: an absent search or filter asks for every item.
  abbrev pub is_searched : Text → Item N → Bool
  is_searched search x = if is_empty search then true else item_matches n lower search x

  abbrev pub is_filtered : Option Text → Item N → Bool
  is_filtered none x = true
  is_filtered (some value) x = passes n lower value x
