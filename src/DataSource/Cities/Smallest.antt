-- ===== src/DataSource/Cities/Smallest.antt =====
-- The entries 133 to 146 of `sampleData.geonames` in
-- smc-base-server/src/main/webapp/fuelux/sample/data.js.
use base_service.Base.{List, [], ◌∷◌}
use base_service.DataSource.{Item}
use base_service.DataSource.City.{Decimal, decimal, minus, city}

abbrev pub from_133 : List (Item Decimal)
from_133 =
    city "seat of a first-order administrative division" "Trujillo" "PE" "Trujillo"
      (minus 790299797058105 13) "PPLA" 3691175 (minus 81159942774572 13) 747450
    ∷ city "seat of a first-order administrative division" "Teresina" "BR" "Teresina"
        (minus 4280194444 8) "PPLA" 3386496 (minus 5089166667 9) 744512
    ∷ city "seat of a second-order administrative division" "Ciudad Guayana" "VE" "Ciudad Guayana"
        (minus 62641023 6) "PPLA2" 3645528 (decimal 8351225 6) 746535
    ∷ city "seat of a second-order administrative division" "Charlotte" "US" "Charlotte"
        (minus 808431268 7) "PPLA2" 4460243 (decimal 352270869 7) 731424
    ∷ city "seat of a first-order administrative division" "Cúcuta" "CO" "Cúcuta" (minus 72507821 6)
        "PPLA" 3685533 (decimal 7893907 6) 721398
    ∷ city "seat of a first-order administrative division" "Mérida" "MX" "Mérida"
        (minus 896166667 7) "PPLA" 3523349 (decimal 209666667 7) 717175
    ∷ city "seat of a first-order administrative division" "Chihuahua" "MX" "Chihuahua"
        (minus 1060833333 7) "PPLA" 4014338 (decimal 286333333 7) 708267
    ∷ city "populated place" "City of Balikpapan" "ID" "City of Balikpapan"
        (decimal 1168941879272461 13) "PPL" 8224624 (minus 12420444341467216 16) 700000
    ∷ city "populated place" "Zigong" "CN" "Zigong" (decimal 104776887 6) "PPL" 1783745
        (decimal 29341622 6) 689961
    ∷ city "seat of a first-order administrative division" "Ipoh" "MY" "Ipoh" (decimal 1010829 4)
        "PPLA" 1734634 (decimal 45841 4) 673318
    ∷ city "populated place" "Acapulco de Juárez" "MX" "Acapulco" (minus 9989009857177734 14) "PPL"
        3533462 (decimal 16863362389912385 15) 652136
    ∷ []

abbrev pub from_144 : List (Item Decimal)
from_144 =
    city "seat of a second-order administrative division" "Memphis" "US" "Memphis"
      (minus 900489801 7) "PPLA2" 4641239 (decimal 351495343 7) 646889
    ∷ city "seat of a second-order administrative division" "Shaoguan" "CN" "Shaoguan"
        (decimal 1135833333 7) "PPLA2" 1795874 (decimal 248 1) 628749
    ∷ city "seat of a first-order administrative division" "Boston" "US" "Boston"
        (minus 710597732 7) "PPLA" 4930956 (decimal 423584308 7) 617594
    ∷ []
