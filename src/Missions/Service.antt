-- ===== src/Missions/Service.antt =====
-- The operations of `MissionsService` (src/missions/missions.service.ts).
use gp_connect_server.Common.{
  ℕ, Bool, not, ◌&&◌, Option, none, some, List, [], ◌∷◌, map, ◌==◌, nat_eq, ltb, String, is_some_of,
  includes, length, if◌then◌else◌,
}
use gp_connect_server.Schema.{
  Mission, MissionPackage, MissionStatus, mission_status_eq, AdvertisementStatus,
  advertisement_status_eq,
}
use gp_connect_server.Prisma.{Prisma}
use gp_connect_server.Handler.{
  Handler, Exception, Reason, ◌>>=◌, ◌>>◌, pure, or_throw, throw_if, transaction, find_unique,
  find_many, count, create, create_many, update_many, delete_many, missions, mission_packages,
  packages, users, advertisements, transactions, proofs, disputes, ratings, offers, conversations,
}
use gp_connect_server.Handler
use gp_connect_server.Missions.Effects.{validate_status_transition, apply_status_side_effects}

-- `UpdateMissionDto`. A recipient field may be absent, or present with `null`; `carrier_id_given`
-- is the test `'carrierId' in data` of the controller.
pub record UpdateMissionDto : Type 0 where
  pub status : Option MissionStatus
  pub recipient_name : Option (Option String)
  pub recipient_phone : Option (Option String)
  pub carrier_id_given : Bool

abbrev pub given {ℓ} : {A : Type ℓ} → Option A → A → A
given none old = old
given (some new) old = new

-- The columns that `data` sets.
abbrev pub with_data : UpdateMissionDto → Mission → Mission
with_data d m = record m {
  status = given d.status m.status;
  recipient_name = given d.recipient_name m.recipient_name;
  recipient_phone = given d.recipient_phone m.recipient_phone;
}

abbrev pub same_package : MissionPackage → MissionPackage → Bool
same_package a b = a.mission_id == b.mission_id && a.package_id == b.package_id

-- `packageIds.filter((p) => !existingIds.has(p))`
abbrev pub not_linked : List MissionPackage → List ℕ → List ℕ
not_linked existing [] = []
not_linked existing (p ∷ ps) =
    let rest = not_linked existing ps in
    if includes (map (λ r. r.package_id) existing) p then rest else p ∷ rest

module _ {P : Prisma} where
  unfoldable pub verify_packages_ownership : List ℕ → ℕ → Handler P Bool
  verify_packages_ownership package_ids owner_id = do
    n ← count packages (λ p. includes package_ids p.id && p.owner_id == owner_id)
    pure (n == length package_ids)

  -- The guards of `create` on the packages that the mission is to carry.
  unfoldable pub require_owned : List ℕ → ℕ → Handler P (Unit {0})
  unfolding verify_packages_ownership
  require_owned [] shipper_id = pure tt
  require_owned (p ∷ ps) shipper_id = do
    owned ← verify_packages_ownership (p ∷ ps) shipper_id
    throw_if (not owned) (Exception.forbidden Reason.packages_not_owned)

  -- `packageIds` is [] where the body has none; `new_id` is the id that the database draws.
  unfoldable pub create_mission : ℕ → ℕ → ℕ → ℕ → List ℕ → Handler P Mission
  unfolding require_owned
  create_mission now new_id advertisement_id shipper_id package_ids = do
    found ← find_unique advertisements advertisement_id
    ad ← or_throw (Exception.not_found Reason.advertisement_not_found) found
    throw_if (not (ad.status == AdvertisementStatus.open_))
        (Exception.bad_request Reason.advertisement_not_open)
    throw_if (ltb ad.arrival_date now) (Exception.bad_request Reason.advertisement_expired)
    throw_if (ad.author_id == shipper_id) (Exception.forbidden Reason.own_advertisement)
    require_owned package_ids shipper_id
    transaction (do
      shipper ← find_unique users shipper_id
      or_throw Exception.record_not_found shipper
      mission ←
          create missions (λ m. m.id == new_id)
            (record {
              id = new_id;
              advertisement_id = advertisement_id;
              shipper_id = shipper_id;
              carrier_id = none;
              negotiated_price = 0;
              status = MissionStatus.pending;
              recipient_name = none;
              recipient_phone = none;
            })
      create_many mission_packages same_package
          (map (λ p. record { mission_id = new_id; package_id = p }) package_ids)
      pure mission)

  unfoldable pub add_packages : ℕ → List ℕ → Handler P (Unit {0})
  add_packages mission_id package_ids = do
    existing ← find_many mission_packages (λ r. r.mission_id == mission_id)
    transaction (
        create_many mission_packages same_package (
          map (λ p. record { mission_id = mission_id; package_id = p })
            (not_linked existing package_ids)))

  unfoldable pub remove_package : ℕ → ℕ → Handler P (Unit {0})
  remove_package mission_id package_id =
      delete_many mission_packages (λ r. r.mission_id == mission_id && r.package_id == package_id)

  -- The write of `update` under the optimistic lock: only if the status is still `current`.
  unfoldable pub commit_status : ℕ → MissionStatus → UpdateMissionDto → Handler P Mission
  commit_status id current d = do
    n ← update_many missions (λ m. m.id == id && m.status == current) (with_data d)
    throw_if (n == 0) (Exception.bad_request Reason.changed_concurrently)
    found ← find_unique missions id
    mission ← or_throw Exception.record_not_found found
    apply_status_side_effects mission.id mission.advertisement_id mission.status
    pure mission

  unfoldable pub update_mission : ℕ → UpdateMissionDto → Handler P Mission
  update_mission id d = elim d.status [
    | none ↦ Handler.update missions id (with_data d)
    | some next ↦ do
      current ← validate_status_transition id next
      elim current [
        | none ↦ Handler.update missions id (with_data d)
        | some s ↦ commit_status id s d
      ]
  ]

  -- The foreign keys of prisma/schema.prisma that refer to a mission: its transaction restricts the
  -- deletion, the rows that belong to it go with it, offers and conversations lose the reference.
  unfoldable pub delete_mission : ℕ → Handler P Mission
  delete_mission id = do
    found ← find_unique missions id
    mission ← or_throw Exception.record_not_found found
    paid ← count transactions (λ t. t.mission_id == id)
    throw_if (not (paid == 0)) Exception.foreign_key_violation
    delete_many mission_packages (λ r. r.mission_id == id)
    delete_many proofs (λ r. r.mission_id == id)
    delete_many disputes (λ r. r.mission_id == id)
    delete_many ratings (λ r. r.mission_id == id)
    update_many offers (λ o. is_some_of o.mission_id id) (λ o. record o { mission_id = none })
    update_many conversations (λ c. is_some_of c.mission_id id)
        (λ c. record c { mission_id = none })
    delete_many missions (λ m. m.id == id)
    pure mission
