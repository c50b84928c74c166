-- ===== src/DataSource/Cities/Large.antt =====
-- The entries 45 to 88 of `sampleData.geonames` in
-- smc-base-server/src/main/webapp/fuelux/sample/data.js.
use base_service.Base.{List, [], ◌∷◌}
use base_service.DataSource.{Item}
use base_service.DataSource.City.{Decimal, decimal, minus, city}

abbrev pub from_45 : List (Item Decimal)
from_45 =
    city "capital of a political entity" "Cayenne" "GF" "Cayenne" (minus 52333333 6) "PPLC" 3382160
      (decimal 4933333 6) 61550
    ∷ city "capital of a political entity" "Saipan" "MP" "Saipan" (decimal 1457544994354248 13)
        "PPLC" 7828758 (decimal 15212327568734572 15) 48220
    ∷ city "capital of a political entity" "Tarawa" "KI" "Tarawa" (decimal 17297695755958557 14)
        "PPLC" 2110257 (decimal 13277999013685535 16) 40311
    ∷ city "capital of a political entity" "George Town" "KY" "George Town"
        (minus 8136706352233887 14) "PPLC" 3580661 (decimal 1928692209354407 14) 29370
    ∷ city "capital of a political entity" "Majuro" "MH" "Majuro" (decimal 171380270719528 12)
        "PPLC" 2113779 (decimal 708971365952458 14) 25400
    ∷ city "capital of a political entity" "Saint John’s" "AG" "St. John's" (minus 6185 2) "PPLC"
        3576022 (decimal 17116667 6) 24226
    ∷ city "capital of a political entity" "Victoria" "SC" "Victoria" (decimal 5545 2) "PPLC" 241131
        (minus 46166667 7) 22881
    ∷ city "capital of a political entity" "Belmopan" "BZ" "Belmopan" (minus 887666667 7) "PPLC"
        3582672 (decimal 1725 2) 13381
    ∷ city "capital of a political entity" "Funafuti" "TV" "Funafuti" (decimal 17919417321682 11)
        "PPLC" 2110394 (minus 852424963509738 14) 4492
    ∷ city "capital of a political entity" "Cockburn Town" "TC" "Cockburn Town"
        (minus 71141881942749 12) "PPLC" 3576994 (decimal 214612165856583 13) 3720
    ∷ city "capital of a political entity" "Hagåtña" "GU" "Hagåtña" (decimal 144748858809471 12)
        "PPLC" 4044012 (decimal 134756693518442 13) 1051
    ∷ []

abbrev pub from_56 : List (Item Decimal)
from_56 =
    city "capital of a political entity" "Hamilton" "BM" "Hamilton" (minus 647779655456543 13)
      "PPLC" 3573197 (decimal 322914861102988 13) 902
    ∷ city "capital of a political entity" "Melekeok" "PW" "Melekeok" (decimal 134623546600342 12)
        "PPLC" 7303944 (decimal 750042971665144 14) 0
    ∷ city "seat of a first-order administrative division" "Shanghai" "CN" "Shanghai"
        (decimal 1214580556 7) "PPLA" 1796236 (decimal 312222222 7) 14608512
    ∷ city "seat of a first-order administrative division" "Mumbai" "IN" "Mumbai"
        (decimal 7288261413574219 14) "PPLA" 1275339 (decimal 1907282592774 11) 12691836
    ∷ city "seat of a first-order administrative division" "Karachi" "PK" "Karanchi"
        (decimal 670822 4) "PPLA" 1174872 (decimal 249056 4) 11624219
    ∷ city "populated place" "Zhumadian" "CN" "Zhumadian" (decimal 1140294444 7) "PPL" 1783873
        (decimal 329794444 7) 8263100
    ∷ city "populated place" "New York City" "US" "New York" (minus 740059729 7) "PPL" 5128581
        (decimal 407142691 7) 8175133
    ∷ city "seat of a third-order administrative division" "Nanchong" "CN" "Nanchong"
        (decimal 106084735 6) "PPLA3" 1800146 (decimal 30795075 6) 7150000
    ∷ city "seat of a first-order administrative division" "Lahore" "PK" "Lahore"
        (decimal 74343611 6) "PPLA" 1172451 (decimal 31549722 6) 6310888
    ∷ city "populated place" "Tai’an" "CN" "Tai’an" (decimal 11712 2) "PPL" 1793724
        (decimal 36185278 6) 5499000
    ∷ city "seat of a first-order administrative division" "Bangalore" "IN" "Bangalore"
        (decimal 7759368896484375 14) "PPLA" 1277333 (decimal 1297194016928975 14) 5104047
    ∷ []

abbrev pub from_67 : List (Item Decimal)
from_67 =
    city "populated place" "Yueyang" "CN" "Yueyang" (decimal 1130919444 7) "PPL" 1927639
      (decimal 293333333 7) 5000000
    ∷ city "populated place" "Kaifeng" "CN" "Kaifeng" (decimal 11430742263793945 14) "PPL" 1804879
        (decimal 3479860431685418 14) 4800000
    ∷ city "seat of a first-order administrative division" "Toronto" "CA" "Toronto"
        (minus 79416304194 9) "PPLA" 6167865 (decimal 43700113788 9) 4612191
    ∷ city "seat of a first-order administrative division" "Rangoon" "MM" "Yangon"
        (decimal 961561111 7) "PPLA" 1298824 (decimal 168052778 7) 4477638
    ∷ city "seat of a first-order administrative division" "Chittagong" "BD" "Chittagong"
        (decimal 91831685 6) "PPLA" 1205733 (decimal 22338396 6) 3920222
    ∷ city "seat of a second-order administrative division" "Los Angeles" "US" "Los Angeles"
        (minus 1182436849 7) "PPLA2" 5368361 (decimal 340522342 7) 3792621
    ∷ city "populated place" "Ahmadābād" "IN" "Ahmedabad" (decimal 726166667 7) "PPL" 1279233
        (decimal 230333333 7) 3719710
    ∷ city "seat of a first-order administrative division" "Busan" "KR" "Busan"
        (decimal 129040278 6) "PPLA" 1838524 (decimal 35102778 6) 3678555
    ∷ city "seat of a first-order administrative division" "Hyderābād" "IN" "Hyderabad"
        (decimal 784744444 7) "PPLA" 1269843 (decimal 173752778 7) 3597816
    ∷ city "populated place" "Puyang" "CN" "Puyang" (decimal 1198861111 7) "PPL" 1798425
        (decimal 294602778 7) 3590000
    ∷ city "seat of a first-order administrative division" "Shenyang" "CN" "Shenyang"
        (decimal 1234327778 7) "PPLA" 2034937 (decimal 417922222 7) 3512192
    ∷ []

abbrev pub from_78 : List (Item Decimal)
from_78 =
    city "seat of a first-order administrative division" "Lanzhou" "CN" "Lanzhou"
      (decimal 1037922222 7) "PPLA" 1804430 (decimal 360563889 7) 3200000
    ∷ city "populated place" "Sūrat" "IN" "Surat" (decimal 728333333 7) "PPL" 1255364
        (decimal 211666667 7) 2894504
    ∷ city "seat of a first-order administrative division" "Taiyuan" "CN" "Taiyuan"
        (decimal 1125602778 7) "PPLA" 1793511 (decimal 378694444 7) 2722475
    ∷ city "seat of a first-order administrative division" "Jaipur" "IN" "Jaipur"
        (decimal 7578781127929688 14) "PPLA" 1269515 (decimal 269196209739275 13) 2711758
    ∷ city "seat of a second-order administrative division" "Chicago" "US" "Chicago"
        (minus 876500523 7) "PPLA2" 4887398 (decimal 41850033 6) 2695598
    ∷ city "seat of a first-order administrative division" "Changchun" "CN" "Changchun"
        (decimal 1253227778 7) "PPLA" 2038180 (decimal 4388 2) 2537421
    ∷ city "seat of a first-order administrative division" "Fortaleza" "BR" "Fortaleza"
        (minus 3854305556 8) "PPLA" 3399415 (minus 3717222222 9) 2400000
    ∷ city "seat of a first-order administrative division" "Surabaya" "ID" "Surabaya"
        (decimal 1127508333 7) "PPLA" 1625822 (minus 72491667 7) 2374658
    ∷ city "seat of a first-order administrative division" "Mashhad" "IR" "Mashhad"
        (decimal 596062 4) "PPLA" 124665 (decimal 36297 3) 2307177
    ∷ city "seat of a second-order administrative division" "Nāgpur" "IN" "Nagpur" (decimal 791 1)
        "PPLA2" 1262180 (decimal 2115 2) 2228018
    ∷ city "seat of a second-order administrative division" "Houston" "US" "Houston"
        (minus 953632715 7) "PPLA2" 4699066 (decimal 297632836 7) 2099451
    ∷ []
