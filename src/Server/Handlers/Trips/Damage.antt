-- ===== src/Server/Handlers/Trips/Damage.antt =====
-- A damaged bike is out of service.
use shared_bike_refactor.Base.{ℕ, ◌≡◌, refl, ap, ◌∙◌, true, some, arith, if◌then◌else◌}
use shared_bike_refactor.Base.Dict.{Bytes, bytes_eq, bytes_eq_iff}
use shared_bike_refactor.Common.Double.{Double}
use shared_bike_refactor.Common.Errors.{success, to_string}
use shared_bike_refactor.Common.Validation.{valid_bike_no}
use shared_bike_refactor.Server.Bikes.{Bike, damaged, get_for_update, update_status}
use shared_bike_refactor.Server.Bikes.Status.{IsValid, update_status_lem}
use shared_bike_refactor.Server.Messages.{ReportDamageRequest, ScanUnlockRequest}
use shared_bike_refactor.Server.Router.{Ctx, IsKept, require_user, require_user-IsKept}
use shared_bike_refactor.Server.Handlers.ScanUnlock.{Readings, unlock}
use shared_bike_refactor.Server.Handlers.ScanUnlock.Exclusive.{unlock_busy}
use shared_bike_refactor.Server.Handlers.Trips.{damage_answer, mark_damaged, take_damage}

module _ {F : Type 0} where
  mark_damaged_lem :
      (req : ReportDamageRequest) (ctx : Ctx F) (bike : Bike F)
      → valid_bike_no req.bike_no ≡ true
      → get_for_update ctx.bikes req.bike_no ≡ some bike
      → mark_damaged req ctx ≡ (
        damage_answer success (to_string success),
        record ctx { bikes = (update_status ctx.bikes bike.id damaged).1 },
      )
  unfolding mark_damaged
  mark_damaged_lem req ctx bike valid found = ground (arith, valid, found)

  -- A report by a user about a bike that is there marks that bike damaged, whatever its status was, and
  -- no other.
  pub take_damage_lem :
      (req : ReportDamageRequest) (now uid : ℕ) (ctx : Ctx F) (bike : Bike F) (other : Bytes)
      → (require_user req.session_token now ctx).0 ≡ some uid
      → valid_bike_no req.bike_no ≡ true
      → IsValid ctx.bikes
      → get_for_update ctx.bikes req.bike_no ≡ some bike
      → let (r, ctx') = take_damage req now ctx in
        (r ≡ damage_answer success (to_string success))
        × (get_for_update ctx'.bikes other ≡ (
            if bytes_eq req.bike_no other
            then some (record bike { status = damaged })
            else get_for_update ctx.bikes other))
  unfolding take_damage
  take_damage_lem req now uid ctx bike other known valid v found =
      let kept = require_user-IsKept req.session_token now ctx in
      let c = (require_user req.session_token now ctx).1 in
      let there : get_for_update c.bikes req.bike_no ≡ some bike =
        ap (λ r. get_for_update r req.bike_no) kept.bikes_kept ∙ found in
      rw (known, take_damage, mark_damaged_lem req c bike valid there)
        (
          refl,
          (update_status_lem c.bikes req.bike_no bike damaged other (rw kept.bikes_kept v) there).1
              ∙ ap
                  (λ r.
                    if bytes_eq req.bike_no other
                    then some (record bike { status = damaged })
                    else get_for_update r other)
                  kept.bikes_kept,
        )

  -- After such a report the next request to unlock the bike, by whomever, changes no account, bike,
  -- ride or ride session.
  pub damaged_not_unlocked :
      (fl : Double F) (readings : Readings) (ask : ScanUnlockRequest F) (req : ReportDamageRequest)
      (now uid : ℕ) (ctx : Ctx F) (bike : Bike F)
      → (require_user req.session_token now ctx).0 ≡ some uid
      → valid_bike_no req.bike_no ≡ true
      → IsValid ctx.bikes
      → get_for_update ctx.bikes req.bike_no ≡ some bike
      → ask.bike_no ≡ req.bike_no
      → let ctx' = (take_damage req now ctx).1 in IsKept ctx' (unlock readings ask fl ctx').1
  damaged_not_unlocked fl readings ask req now uid ctx bike known valid v found same =
      let ctx' = (take_damage req now ctx).1 in
      unlock_busy fl readings ask ctx' (record bike { status = damaged })
        (ap (get_for_update ctx'.bikes) same
          ∙ (take_damage_lem req now uid ctx bike req.bike_no known valid v found).1
          ∙ rw ((bytes_eq_iff req.bike_no req.bike_no).1 refl) refl)
        (λ e. cc)
