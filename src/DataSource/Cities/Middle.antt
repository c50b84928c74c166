-- ===== src/DataSource/Cities/Middle.antt =====
-- The entries 89 to 132 of `sampleData.geonames` in
-- smc-base-server/src/main/webapp/fuelux/sample/data.js.
use base_service.Base.{List, [], ◌∷◌}
use base_service.DataSource.{Item}
use base_service.DataSource.City.{Decimal, decimal, minus, city}

abbrev pub from_89 : List (Item Decimal)
from_89 =
    city "seat of a first-order administrative division" "Medellín" "CO" "Medellín"
      (minus 75563591 6) "PPLA" 3674962 (decimal 625184 5) 1999979
    ∷ city "seat of a first-order administrative division" "Guayaquil" "EC" "Guayaquil"
        (minus 799 1) "PPLA" 3657509 (minus 21666667 7) 1952029
    ∷ city "populated place" "Ordos" "CN" "Ordos" (decimal 10978157043457031 14) "PPL" 8347664
        (decimal 3960859776020064 14) 1940653
    ∷ city "seat of a first-order administrative division" "Sapporo-shi" "JP" "Sapporo"
        (decimal 141346945 6) "PPLA" 2128295 (decimal 43064167 6) 1883027
    ∷ city "seat of a first-order administrative division" "Patna" "IN" "Patna"
        (decimal 851166667 7) "PPLA" 1260086 (decimal 256 1) 1599920
    ∷ city "seat of a first-order administrative division" "Manaus" "BR" "Manaus" (minus 60025 3)
        "PPLA" 3663517 (minus 3101944444 9) 1598210
    ∷ city "seat of a first-order administrative division" "Urunchi" "CN" "Ürümqi"
        (decimal 87600459 6) "PPLA" 1529102 (decimal 43800965 6) 1508225
    ∷ city "populated place" "Ciudad Juárez" "MX" "Ciudad Juárez" (minus 106483333 6) "PPL" 4013708
        (decimal 31733333 6) 1512354
    ∷ city "seat of a first-order administrative division" "Recife" "BR" "Recife"
        (minus 3488111111 8) "PPLA" 3390760 (minus 8053888889 9) 1478098
    ∷ city "seat of a first-order administrative division" "Kyoto" "JP" "Kyoto"
        (decimal 13575385093689 11) "PPLA" 1857910 (decimal 3502106999142 11) 1459640
    ∷ city "seat of a first-order administrative division" "Palembang" "ID" "Palembang"
        (decimal 104745798110962 12) "PPLA" 1633070 (minus 291672533277337 14) 1441500
    ∷ []

abbrev pub from_100 : List (Item Decimal)
from_100 =
    city "seat of a second-order administrative division" "Multān" "PK" "Multan"
      (decimal 71475278 6) "PPLA2" 1169825 (decimal 30195556 6) 1437230
    ∷ city "seat of a first-order administrative division" "Belém" "BR" "Belém" (minus 4850444444 8)
        "PPLA" 3405870 (minus 1455833333 9) 1407737
    ∷ city "seat of a first-order administrative division" "Fukuoka-shi" "JP" "Fukuoka"
        (decimal 130418056 6) "PPLA" 1863967 (decimal 33606389 6) 1392289
    ∷ city "populated place" "Tijuana" "MX" "Tijuana" (minus 117003714 6) "PPL" 3981609
        (decimal 32502698 6) 1376457
    ∷ city "seat of a first-order administrative division" "Makassar" "ID" "Makassar"
        (decimal 1194221 4) "PPLA" 1622786 (minus 514 2) 1321717
    ∷ city "populated place" "Budta" "PH" "Budta" (decimal 1244397222 7) "PPL" 1723510
        (decimal 72041667 7) 1273715
    ∷ city "seat of a second-order administrative division" "Dallas" "US" "Dallas"
        (minus 968066667 7) "PPLA2" 4684888 (decimal 327830556 7) 1197816
    ∷ city "populated place" "Gustavo A. Madero" "MX" "Gustavo A. Madero" (minus 987666667 7) "PPL"
        3482969 (decimal 228333333 7) 1185772
    ∷ city "seat of a first-order administrative division" "Guiyang" "CN" "Guiyang"
        (decimal 1067166667 7) "PPLA" 1809461 (decimal 265833333 7) 1171633
    ∷ city "seat of a first-order administrative division" "Dubai" "AE" "Dubai" (decimal 55304717 6)
        "PPLA" 292223 (decimal 25258172 6) 1137347
    ∷ city "populated place" "Dayan" "CN" "Lijiang City" (decimal 100220718383789 12) "PPL" 1813253
        (decimal 268687934220524 13) 1137600
    ∷ []

abbrev pub from_111 : List (Item Decimal)
from_111 =
    city "seat of a first-order administrative division" "Monterrey" "MX" "Monterrey"
      (minus 1003166667 7) "PPLA" 3995465 (decimal 256666667 7) 1122874
    ∷ city "populated place" "León" "MX" "León" (minus 1016666667 7) "PPL" 3998655
        (decimal 211166667 7) 1114626
    ∷ city "seat of a first-order administrative division" "Sendai-shi" "JP" "Sendai-shi"
        (decimal 140871945 6) "PPLA" 2111149 (decimal 38268889 6) 1037562
    ∷ city "populated place" "Teni" "IN" "Theni" (decimal 774833333 7) "PPL" 1254745 (decimal 10 0)
        1034724
    ∷ city "seat of a first-order administrative division" "Kunming" "CN" "Kunming"
        (decimal 1027183333 7) "PPLA" 1804651 (decimal 250388889 7) 1023674
    ∷ city "populated place" "Jabalpur" "IN" "Jabalpur" (decimal 799500632286072 13) "PPL" 1269633
        (decimal 231669748590236 13) 1030168
    ∷ city "seat of a first-order administrative division" "Srīnagar" "IN" "Srinagar"
        (decimal 74802222 6) "PPLA" 1255634 (decimal 34092222 6) 975857
    ∷ city "populated place" "Cartagena" "CO" "Cartagena" (minus 755144444 7) "PPL" 3687238
        (decimal 103997222 7) 952024
    ∷ city "seat of a second-order administrative division" "San Jose" "US" "San Jose"
        (minus 1218949555 7) "PPLA2" 5392171 (decimal 373393857 7) 945942
    ∷ city "seat of a first-order administrative division" "Mamuju" "ID" "Mamuju"
        (decimal 1188885 4) "PPLA" 1636556 (minus 26748 4) 938254
    ∷ city "populated place" "Guwāhāti" "IN" "Guwahati" (decimal 9175094604492188 14) "PPL" 1271476
        (decimal 26186173577496323 15) 899094
    ∷ []

abbrev pub from_122 : List (Item Decimal)
from_122 =
    city "populated place" "Wenzhou" "CN" "Wenzhou" (decimal 12066682 5) "PPL" 1791388
      (decimal 27999416 6) 865672
    ∷ city "seat of a first-order administrative division" "Padang" "ID" "Padang"
        (decimal 100354270935059 12) "PPLA" 1633419 (minus 949243986848526 15) 840352
    ∷ city "populated place" "Hubli" "IN" "Hubli" (decimal 7513378143310547 14) "PPL" 1269920
        (decimal 1534776192434695 14) 840214
    ∷ city "seat of a second-order administrative division" "Jacksonville" "US" "Jacksonville"
        (minus 81655651 6) "PPLA2" 4160021 (decimal 303321838 7) 821784
    ∷ city "seat of a first-order administrative division" "Cebu City" "PH" "Cebu City"
        (decimal 123890708684921 12) "PPLA" 1717512 (decimal 103167216222722 13) 798634
    ∷ city "seat of a first-order administrative division" "Thiruvananthapuram" "IN"
        "Thiruvananthapuram" (decimal 76956944 6) "PPLA" 1254163 (decimal 8506944 6) 784153
    ∷ city "seat of a first-order administrative division" "Natal" "BR" "Natal" (minus 3520944444 8)
        "PPLA" 3394023 (minus 5795 3) 763043
    ∷ city "seat of a second-order administrative division" "Tainan" "TW" "Tainan"
        (decimal 120213333 6) "PPLA2" 1668355 (decimal 22990833 6) 771235
    ∷ city "populated place" "Kota" "IN" "Kota" (decimal 758333333 7) "PPL" 1266049
        (decimal 251833333 7) 763088
    ∷ city "seat of a first-order administrative division" "Turan" "VN" "Da Nang"
        (decimal 108220833 6) "PPLA" 1583992 (decimal 16067778 6) 752493
    ∷ city "populated place" "Hengyang" "CN" "Hengyang" (decimal 112615 3) "PPL" 1808370
        (decimal 268880556 7) 759602
    ∷ []
