-- ===== src/Locations.antt =====
-- The driver-location types of infrastructure/internal/locations/repository.go.
use ride_matching_engine.Common.{String, ℤ}
use ride_matching_engine.Time.{Time}
pub mod Retry
pub mod Redis

-- `F` is the type of floating-point numbers.
pub record DriverLocation (F : Type 0) : Type 0 where
  pub tenant_id : String
  pub driver_id : String
  pub lat : F
  pub lng : F
  pub distance_meters : F
  pub last_seen : Time

pub record Query (F : Type 0) : Type 0 where
  pub lat : F
  pub lng : F
  pub radius : F
  pub limit : ℤ
