-- ===== src/DataSource/Cities.antt =====
-- The table `sampleData.geonames` of smc-base-server/src/main/webapp/fuelux/sample/data.js, in its order.
pub mod Largest
pub mod Large
pub mod Middle
pub mod Smallest
use base_service.Base.{List, ◌++◌}
use base_service.DataSource.{Item}
use base_service.DataSource.City.{Decimal}
use base_service.DataSource.Cities.Largest.{from_1, from_12, from_23, from_34}
use base_service.DataSource.Cities.Large.{from_45, from_56, from_67, from_78}
use base_service.DataSource.Cities.Middle.{from_89, from_100, from_111, from_122}
use base_service.DataSource.Cities.Smallest.{from_133, from_144}

abbrev pub geonames : List (Item Decimal)
geonames =
    from_1 ++ from_12 ++ from_23 ++ from_34 ++ from_45 ++ from_56 ++ from_67 ++ from_78 ++ from_89
    ++ from_100 ++ from_111 ++ from_122 ++ from_133 ++ from_144
