-- ===== src/DataSource/City.antt =====
-- An entry of `sampleData` in smc-base-server/src/main/webapp/fuelux/sample/data.js, as an item of a data
-- source, with its numbers as they are written there.
use Prim.Native.String.{String}
use base_service.Base.{ℕ, Bool, true, false, [], ◌∷◌}
use base_service.Text.{codes}
use base_service.DataSource.{Prop, text, number, Field, Item}

-- A number's sign, its digits, and how many of them stand behind the point.
pub record Decimal : Type 0 where
  pub negative : Bool
  pub digits : ℕ
  pub places : ℕ

abbrev pub decimal : ℕ → ℕ → Decimal
decimal d p = record { negative = false; digits = d; places = p }

abbrev pub minus : ℕ → ℕ → Decimal
minus d p = record { negative = true; digits = d; places = p }

abbrev pub field : String → Prop Decimal → Field Decimal
field k p = record { key = codes k; prop = p }

-- `fcl`, `fclName` and `wikipedia` are the same in all entries.
abbrev pub city :
    String → String → String → String → Decimal → String → ℕ → Decimal → ℕ → Item Decimal
city fcode_name toponym_name countrycode name lng fcode geoname_id lat population =
    field "fcodeName" (text (codes fcode_name))
    ∷ field "toponymName" (text (codes toponym_name))
    ∷ field "countrycode" (text (codes countrycode))
    ∷ field "fcl" (text (codes "P"))
    ∷ field "fclName" (text (codes "city, village,..."))
    ∷ field "name" (text (codes name))
    ∷ field "wikipedia" (text (codes ""))
    ∷ field "lng" (number lng)
    ∷ field "fcode" (text (codes fcode))
    ∷ field "geonameId" (number (decimal geoname_id 0))
    ∷ field "lat" (number lat)
    ∷ field "population" (number (decimal population 0))
    ∷ []
