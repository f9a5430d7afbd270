-- ===== src/Cmd/Keyadmin/Laws.antt =====
-- What the status of a key says of its use.
use ride_matching_engine.Common.{◌≡◌, refl, true, false, ◌⊎◌, inl, inr, Bool-cases, arith}
use ride_matching_engine.Common.Int.{ltb_ℤ, leb_ℤ, ◌<ℤ◌, eq_of_parts}
use ride_matching_engine.Time.{Time, is_zero}
use ride_matching_engine.Auth.{ApiKey, active}
use ride_matching_engine.Cmd.Keyadmin.{status}

-- A key that is listed as active, as expired or as revoked, and what `Active` says of it.
abbrev pub ListedActive : ApiKey → Time → Type 0
ListedActive k now =
    (status k now ≡ "active")
    × (is_zero k.revoked_at ≡ true)
    × ((active k now ≡ true) ⊎ ((active k now ≡ false) × (k.expires_at ≡ now)))

abbrev pub ListedExpired : ApiKey → Time → Type 0
ListedExpired k now = (status k now ≡ "expired") × (active k now ≡ false)

abbrev pub ListedRevoked : ApiKey → Time → Type 0
ListedRevoked k now =
    (status k now ≡ "revoked")
    × (is_zero k.revoked_at ≡ false)
    × ((active k now ≡ false) ⊎ (now <ℤ k.revoked_at))

unrevoked_lem :
    (k : ApiKey) (now : Time)
    → is_zero k.revoked_at ≡ true
    → ListedActive k now ⊎ ListedExpired k now
unfolding status active
unrevoked_lem k now u = elim (Bool-cases (is_zero k.expires_at)) [
  | inl unlimited ↦ inl (rw (u, unlimited) refl, u, inl (rw (u, unlimited) refl))
  | inr limited ↦ elim (Bool-cases (ltb_ℤ k.expires_at now)) [
    | inl over ↦
        let come : leb_ℤ k.expires_at now ≡ true = ground arith in
        inr (rw (u, limited, over) refl, rw (u, limited, come) refl)
    | inr ahead ↦ elim (Bool-cases (leb_ℤ k.expires_at now)) [
      | inr later ↦ inl (rw (u, limited, ahead) refl, u, inl (rw (u, limited, later) refl))
      | inl come ↦ inl (
        rw (u, limited, ahead) refl,
        u,
        inr (rw (u, limited, come) refl, eq_of_parts k.expires_at now (ground arith)),
      )
    ]
  ]
]

revoked_lem : (k : ApiKey) (now : Time) → is_zero k.revoked_at ≡ false → ListedRevoked k now
unfolding status active
revoked_lem k now set = elim (Bool-cases (leb_ℤ k.revoked_at now)) [
  | inl come ↦ (rw set refl, set, inl (rw (set, come) refl))
  | inr ahead ↦ (rw set refl, set, inr (ground arith))
]

-- What `keyadmin list` says of a key against what `Active` makes of it. One that is listed as active
-- has no time of revocation and is in use, but at the very instant of its expiry. One that is listed as
-- expired is not in use. One that is listed as revoked has a time of revocation, which is still to
-- come, or it is not in use. There is no other status.
pub status_lem :
    (k : ApiKey) (now : Time) → ListedActive k now ⊎ (ListedExpired k now ⊎ ListedRevoked k now)
status_lem k now = elim (Bool-cases (is_zero k.revoked_at)) [
  | inl none_set ↦ elim (unrevoked_lem k now none_set) [ inl a ↦ inl a | inr e ↦ inr (inl e) ]
  | inr set ↦ inr (inr (revoked_lem k now set))
]
