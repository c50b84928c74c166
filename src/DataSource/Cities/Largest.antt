-- ===== src/DataSource/Cities/Largest.antt =====
-- The entries 1 to 44 of `sampleData.geonames` in
-- smc-base-server/src/main/webapp/fuelux/sample/data.js.
use base_service.Base.{List, [], ◌∷◌}
use base_service.DataSource.{Item}
use base_service.DataSource.City.{Decimal, decimal, minus, city}

abbrev pub from_1 : List (Item Decimal)
from_1 =
    city "capital of a political entity" "Mexico City" "MX" "Mexico City" (minus 9912766456604 11)
      "PPLC" 3530597 (decimal 19428472427036 12) 12294193
    ∷ city "capital of a political entity" "Manila" "PH" "Manila" (decimal 1209822 4) "PPLC" 1701668
        (decimal 146042 4) 10444527
    ∷ city "capital of a political entity" "Dhaka" "BD" "Dhaka" (decimal 9040743827819824 14) "PPLC"
        1185241 (decimal 23710395616597037 15) 10356500
    ∷ city "capital of a political entity" "Seoul" "KR" "Seoul" (decimal 126977834701538 12) "PPLC"
        1835848 (decimal 375682561388953 13) 10349312
    ∷ city "capital of a political entity" "Jakarta" "ID" "Jakarta" (decimal 10684513092041016 14)
        "PPLC" 1642911 (minus 6214623197035775 15) 8540121
    ∷ city "capital of a political entity" "Tokyo" "JP" "Tokyo" (decimal 13969171 5) "PPLC" 1850147
        (decimal 356895 4) 8336599
    ∷ city "capital of a political entity" "Taipei" "TW" "Taipei" (decimal 121531846 6) "PPLC"
        1668341 (decimal 25047763 6) 7871900
    ∷ city "capital of a political entity" "Beijing" "CN" "Beijing" (decimal 116397228240967 12)
        "PPLC" 1816670 (decimal 399074977414405 13) 7480601
    ∷ city "capital of a political entity" "Bogotá" "CO" "Bogotá" (minus 7408175468444824 14) "PPLC"
        3688689 (decimal 4609705849789108 15) 7102602
    ∷ city "capital of a political entity" "Hong Kong" "HK" "Hong Kong" (decimal 114157691001892 12)
        "PPLC" 1819729 (decimal 222855225817732 13) 7012738
    ∷ city "capital of a political entity" "Bangkok" "TH" "The City of Angels" (decimal 100501444 6)
        "PPLC" 1609350 (decimal 13753979 6) 5104476
    ∷ []

abbrev pub from_12 : List (Item Decimal)
from_12 =
    city "capital of a political entity" "Singapore" "SG" "Singapore" (decimal 103850069046021 12)
      "PPLC" 1880252 (decimal 128966883937733 14) 3547809
    ∷ city "capital of a political entity" "Pyongyang" "KP" "Pyongyang"
        (decimal 12575431823730469 14) "PPLC" 1871859 (decimal 39033852842708576 15) 3222000
    ∷ city "capital of a political entity" "Kabul" "AF" "Kabul" (decimal 6917232513427734 14) "PPLC"
        1138958 (decimal 3452812640463504 14) 3043532
    ∷ city "capital of a political entity" "Caracas" "VE" "Caracas" (minus 66879193 6) "PPLC"
        3646738 (decimal 10488011 6) 3000000
    ∷ city "capital of a political entity" "Santo Domingo" "DO" "Santo Domingo"
        (minus 6998857498168945 14) "PPLC" 3492908 (decimal 1850012187792744 14) 2201941
    ∷ city "capital of a political entity" "Havana" "CU" "Havana" (minus 8238304138183594 14) "PPLC"
        3553478 (decimal 23133019745980196 15) 2163824
    ∷ city "capital of a political entity" "Tashkent" "UZ" "Tashkent" (decimal 6921627044677734 14)
        "PPLC" 1512569 (decimal 4126464643600054 14) 1978028
    ∷ city "capital of a political entity" "Phnom Penh" "KH" "Phnom Penh" (decimal 104916006 6)
        "PPLC" 1821306 (decimal 1156245 5) 1573544
    ∷ city "capital of a political entity" "Kuala Lumpur" "MY" "Kuala Lumpur"
        (decimal 101686534881592 12) "PPLC" 1735161 (decimal 314120171804761 14) 1453975
    ∷ city "capital of a political entity" "Kathmandu" "NP" "Kathmandu"
        (decimal 8532059669494629 14) "PPLC" 1283240 (decimal 27701691866145573 15) 1442271
    ∷ city "capital of a political entity" "Hà Nội" "VN" "Hanoi" (decimal 1058411693572998 13)
        "PPLC" 1581130 (decimal 2102450477127423 14) 1431270
    ∷ []

abbrev pub from_23 : List (Item Decimal)
from_23 =
    city "capital of a political entity" "Quito" "EC" "Quito" (minus 7852495193481445 14) "PPLC"
      3652462 (minus 2298539672002563 16) 1399814
    ∷ city "capital of a political entity" "Guatemala City" "GT" "Guatemala City"
        (minus 9051326751708984 14) "PPLC" 3598132 (decimal 14640724984903278 15) 994938
    ∷ city "capital of a political entity" "Managua" "NI" "Managua" (minus 8625040054321289 14)
        "PPLC" 3617763 (decimal 1213281653939173 14) 973087
    ∷ city "capital of a political entity" "Nay Pyi Taw" "MM" "Nay Pyi Taw" (decimal 96129722 6)
        "PPLC" 6611854 (decimal 19745 3) 925000
    ∷ city "capital of a political entity" "Bishkek" "KG" "Bishkek" (decimal 7459 2) "PPLC" 1528675
        (decimal 4287 2) 900000
    ∷ city "capital of a political entity" "Muscat" "OM" "Muscat" (decimal 585922 4) "PPLC" 287286
        (decimal 23613874 6) 797000
    ∷ city "capital of a political entity" "Ashgabat" "TM" "Ashgabat" (decimal 583833333 7) "PPLC"
        162183 (decimal 3795 2) 727700
    ∷ city "capital of a political entity" "Colombo" "LK" "Colombo" (decimal 798477778 7) "PPLC"
        1248991 (decimal 69319444 7) 648034
    ∷ city "capital of a political entity" "Washington, D. C." "US" "Washington" (minus 770363658 7)
        "PPLC" 4140963 (decimal 388951118 7) 601723
    ∷ city "capital of a political entity" "Dushanbe" "TJ" "Dushanbe" (decimal 6877904891967773 14)
        "PPLC" 1221874 (decimal 385357458822238 13) 543107
    ∷ city "capital of a political entity" "Panamá" "PA" "Panama City" (minus 7951972961425781 14)
        "PPLC" 3703443 (decimal 899360046428003 14) 408168
    ∷ []

abbrev pub from_34 : List (Item Decimal)
from_34 =
    city "capital of a political entity" "New Delhi" "IN" "New Delhi" (decimal 7722444534301758 14)
      "PPLC" 1261481 (decimal 28635760131498763 15) 317797
    ∷ city "capital of a political entity" "Georgetown" "GY" "Georgetown"
        (minus 58155269622802734 15) "PPLC" 3378644 (decimal 6804483851419782 15) 235017
    ∷ city "capital of a political entity" "Nassau" "BS" "Nassau" (minus 7734306335449219 14) "PPLC"
        3571824 (decimal 2505823320992254 14) 227940
    ∷ city "capital of a political entity" "Vientiane" "LA" "Vientiane" (decimal 1026 1) "PPLC"
        1651944 (decimal 17966667 6) 196731
    ∷ city "capital of a political entity" "Dili" "TL" "Dili" (decimal 1255736111 7) "PPLC" 1645457
        (minus 85586111 7) 150000
    ∷ city "capital of a political entity" "Willemstad" "CW" "Willemstad" (minus 689335441589355 13)
        "PPLC" 3513090 (decimal 121083965959225 13) 125000
    ∷ city "capital of a political entity" "Praia" "CV" "Praia" (minus 23512544631958008 15) "PPLC"
        3374333 (decimal 14931516073431668 15) 113364
    ∷ city "capital of a political entity" "Male" "MV" "Malé" (decimal 735088777542114 13) "PPLC"
        1282027 (decimal 417479639013428 14) 103693
    ∷ city "capital of a political entity" "Bridgetown" "BB" "Bridgetown" (minus 596166667 7) "PPLC"
        3374036 (decimal 131 1) 98511
    ∷ city "capital of a political entity" "Fort-de-France" "MQ" "Fort-de-France"
        (minus 61073341369628906 15) "PPLC" 3570675 (decimal 14608916925759976 15) 89995
    ∷ city "capital of a political entity" "Bandar Seri Begawan" "BN" "Bandar Seri Begawan"
        (decimal 11494806289672852 14) "PPLC" 1820906 (decimal 494028963405338 14) 64409
    ∷ []
