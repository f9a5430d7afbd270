-- ===== src/Api/Places.antt =====
-- What a valid ride request says: `validate` of infrastructure/internal/api/server.go.
use ride_matching_engine.Common.{
  ◌≤◌, ◌≡◌, ◌≢◌, refl, sym, Bool, true, false, ◌&&◌, ◌||◌, Option, none, some, inl, inr, pos,
  negsuc, same, same-false, ltb, Bool-cases, arith,
}
use ride_matching_engine.Common.Chars.{byte_length}
use ride_matching_engine.Floats.{Floats}
use ride_matching_engine.Api.{
  LatLng, RideRequestInput, Json, Fault, less, validate_numbers, placed, validate_place,
  validate_pickup, validate,
}

module _ (fl : Floats) (json : Json fl.F) where
  open fl use {F, at_most, literal}

  -- Finite, and on the globe.
  pub record IsPlace (lat lng : F) : Type 0 where
    pub finite : json.is_finite lat && json.is_finite lng ≡ true
    pub lat_low : less fl json lat (literal (negsuc 89)) ≡ false
    pub lat_high : less fl json (literal (pos 90)) lat ≡ false
    pub lng_low : less fl json lng (literal (negsuc 179)) ≡ false
    pub lng_high : less fl json (literal (pos 180)) lng ≡ false

  or_false : (a b : Bool) → a || b ≡ false → (a ≡ false) × (b ≡ false)
  or_false a b h = ground (arith, h)

  numbers-IsPlace : (lat lng : F) → validate_numbers fl json lat lng ≡ none → IsPlace lat lng
  unfolding validate_numbers
  numbers-IsPlace lat lng h = elim (Bool-cases (json.is_finite lat && json.is_finite lng)) [
    | inr e ↦ cc (rw e at h)
    | inl e ↦
        elim (Bool-cases
          (less fl json lat (literal (negsuc 89)) || less fl json (literal (pos 90)) lat)) [
            | inl f ↦ cc (rw (e, f) at h)
            | inr f ↦
                elim (Bool-cases (
                  less fl json lng (literal (negsuc 179))
                  || less fl json (literal (pos 180)) lng)) [
                    | inl g ↦ cc (rw (e, f, g) at h)
                    | inr g ↦
                        let (a, b) = or_false _ _ f in
                        let (c, d) = or_false _ _ g in
                        record { finite = e; lat_low = a; lat_high = b; lng_low = c; lng_high = d }
                  ]
          ]
  ]

  place_ok :
      (lat lng : F) (r : Option Fault) (p : F × F)
      → placed fl json lat lng r ≡ inr p
      → (r ≡ none) × (p ≡ (lat, lng))
  place_ok lat lng (some f) p h = cc
  place_ok lat lng none p h = (refl, ground (arith, h))

  pickup_ok :
      (o : Option (LatLng F)) (p : F × F)
      → validate_pickup fl json o ≡ inr p
      → (o ≡ some (record { lat = some p.0; lng = some p.1 })) × IsPlace p.0 p.1
  unfolding validate_pickup validate_place
  pickup_ok none p h = cc
  pickup_ok (some l) p h = go l.lat l.lng refl refl h
    where
      go :
          (lat lng : Option F)
          → l.lat ≡ lat
          → l.lng ≡ lng
          → validate_place fl json lat lng ≡ inr p
          → (some l ≡ some (record { lat = some p.0; lng = some p.1 })) × IsPlace p.0 p.1
      go none lng a b h' = cc
      go (some lat) none a b h' = cc
      go (some lat) (some lng) a b h' =
          let (valid, same_place) = place_ok lat lng (validate_numbers fl json lat lng) p h' in
          rw same_place (rw (sym a, sym b) refl, numbers-IsPlace lat lng valid)

  pub validate_ok :
      (i : RideRequestInput F) (p : F × F)
      → validate fl json i ≡ inr p
      → (i.rider_id ≢ "")
        × (byte_length i.rider_id ≤ 128)
        × (i.pickup ≡ some (record { lat = some p.0; lng = some p.1 }))
        × IsPlace p.0 p.1
  unfolding validate
  validate_ok i p h = elim (Bool-cases (same i.rider_id "")) [
    | inl e ↦ cc (rw e at h)
    | inr e ↦ elim (Bool-cases (ltb 128 (byte_length i.rider_id))) [
      | inl f ↦ cc (rw (e, f) at h)
      | inr f ↦
          let (sent, place) = pickup_ok i.pickup p (rw (e, f) at h) in
          (same-false _ _ e, ground (arith, f), sent, place)
    ]
  ]
