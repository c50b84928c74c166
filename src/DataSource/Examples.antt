-- ===== src/DataSource/Examples.antt =====
-- A table of three cities, and the theorems about it.
use base_service.Base.{ℕ, ◌*◌, ◌||◌, ◌≡◌, refl, Bool, none, some, List, [], ◌∷◌, length, ltb}
use Prim.Native.Nat.{◌^◌}
use mathlib.Core.List.{Pairwise}
use base_service.Text.{Text, codes}
use base_service.DataSource.{
  text, number, Item, Numbers, Options, StaticDataSource, Pending, query, respond,
}
use base_service.DataSource.City.{Decimal}
use base_service.DataSource.Cities.{geonames}
use base_service.DataSource.Order.{Before, respond-Before}
use base_service.DataSource.Sorter.{upto, sort_by, sort_by-Pairwise}
use base_service.DataSource.Paging.{first_pages, pages-query, Covers, respond-Covers}
use base_service.DataSource.Answers.{
  Event, asking, writing, handle_all, elapse_times, elapse_times-handle_all,
}

-- Numbers that are written as one character, and no text is one.
abbrev numbers : Numbers ℕ
numbers = record { shown = λ k. k ∷ []; below_5m = λ k. ltb k 5000000; of_text = λ t. none }

abbrev lower : Text → Text
lower t = t

abbrev city : Text → ℕ → Item ℕ
city name people =
    record { key = codes "name"; prop = text name }
    ∷ record { key = codes "population"; prop = number people }
    ∷ []

abbrev table : List (Item ℕ)
table =
    city (codes "Mexico City") 12294193
    ∷ city (codes "Manila") 10444527
    ∷ city (codes "Doha") 344939
    ∷ []

abbrev source : StaticDataSource ℕ
source = record { formatter = none; columns = []; delay = 0; table = table }

abbrev large : Options
large = record {
  search = codes "M";
  filter = some (codes "gte5m");
  sort_property = codes "population";
  sort_direction = codes "desc";
  page_index = 0;
  page_size = 1;
}

large_items :
    query numbers lower sort_by table large
    ≡ city (codes "Mexico City") 12294193 ∷ city (codes "Manila") 10444527 ∷ []
unfolding query
large_items = refl

respond-Before_example :
    Pairwise
      (Before upto (codes "population") (codes "desc"))
      (respond numbers lower sort_by source (record large { page_size = 2 })).items
respond-Before_example =
    respond-Before upto numbers lower sort_by source (record large { page_size = 2 })
      sort_by-Pairwise refl refl

pages-query_example :
    first_pages (λ i. respond numbers lower sort_by source (record large { page_index = i })) 2
    ≡ query numbers lower sort_by table large
unfolding respond
pages-query_example = pages-query numbers lower sort_by source large 2 refl refl

respond-Covers_example : Covers 0 1 2 (respond numbers lower sort_by source large)
unfolding respond
respond-Covers_example = respond-Covers numbers lower sort_by source large 2 refl refl

-- The grid's object is asked with, turned to the next page, and asked with again.
abbrev turning : List Event
turning = asking 0 ∷ writing 0 (record large { page_index = 1 }) ∷ asking 0 ∷ []

abbrev waiting_once : Pending ℕ
waiting_once = record { objects = λ r. large; waiting = 0 ∷ []; answered = [] }

-- Three answers with the second page.
elapse_times-handle_all_example :
    let q = handle_all numbers lower sort_by source turning waiting_once in
    let z = elapse_times numbers lower sort_by source (length q.waiting) q in
    let second = respond numbers lower sort_by source (record large { page_index = 1 }) in
    (z.waiting ≡ []) × (z.answered ≡ second ∷ second ∷ second ∷ [])
elapse_times-handle_all_example =
    elapse_times-handle_all numbers lower sort_by source turning waiting_once tt

-- A decimal below five millions.
abbrev below : Decimal → Bool
below d = d.negative || ltb d.digits (5000000 * 10 ^ d.places)

abbrev decimals : Numbers Decimal
decimals = record { shown = λ d. []; below_5m = below; of_text = λ t. none }

abbrev sample : StaticDataSource Decimal
sample = record { formatter = none; columns = []; delay = 0; table = geonames }

-- The third page of the largest cities.
abbrev third : Options
third = record {
  search = [];
  filter = some (codes "gte5m");
  sort_property = [];
  sort_direction = [];
  page_index = 2;
  page_size = 10;
}

third_page :
    let p = respond decimals lower (λ t xs. xs) sample third in
    (p.count ≡ 21) × (p.pages ≡ some 3) × (p.start ≡ 21) × (p.end ≡ 21) × (length p.items ≡ 1)
unfolding respond
third_page = (refl, refl, refl, refl, refl)
