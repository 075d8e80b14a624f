-- ===== src/MissionRoutes/Routes.antt =====
-- The routes of src/missions/missions.controller.ts that change state: the guards of each, then the
-- service. The identity `user_id` is the one that the authentication guard established.
use gp_connect_server.Common.{
  ℕ, Bool, false, not, ◌&&◌, ◌||◌, Option, none, some, List, [], ◌∷◌, ◌==◌, nat_eq, String, is_set,
  is_some_of, includes,
}
use gp_connect_server.Schema.{Mission, MissionProof, MissionStatus, mission_status_eq, ProofType}
use gp_connect_server.Prisma.{Prisma}
use gp_connect_server.Handler.{
  Handler, Exception, Reason, ◌>>=◌, ◌>>◌, or_throw, throw_if, find_unique, missions,
}
use gp_connect_server.Missions.{
  UpdateMissionDto, verify_packages_ownership, add_packages, remove_package, update_mission,
  delete_mission,
}
use gp_connect_server.Proofs.{Bcrypt, Otp, create_proof, verify}

abbrev pub is_member : ℕ → Mission → Bool
is_member user_id m = user_id == m.shipper_id || is_some_of m.carrier_id user_id

-- `data.status && !MANUAL_ALLOWED.includes(data.status)`
abbrev pub forbidden_manually : Option MissionStatus → Bool
forbidden_manually none = false
forbidden_manually (some s) = not (includes (MissionStatus.cancelled ∷ []) s)

abbrev pub sets_recipient : UpdateMissionDto → Bool
sets_recipient d = is_set d.recipient_name || is_set d.recipient_phone

abbrev pub recipient_statuses : List MissionStatus
recipient_statuses = MissionStatus.pending ∷ MissionStatus.accepted ∷ MissionStatus.in_transit ∷ []

module _ {P : Prisma} where
  -- `findOne`, and a 404 where there is no mission.
  abbrev pub load_mission : ℕ → Handler P Mission
  load_mission id = do
    found ← find_unique missions id
    or_throw (Exception.not_found Reason.unspecified) found

  unfoldable pub add_packages_route : ℕ → ℕ → List ℕ → Handler P (Unit {0})
  add_packages_route user_id mission_id package_ids = do
    m ← load_mission mission_id
    throw_if (not (m.shipper_id == user_id)) (Exception.forbidden Reason.unspecified)
    throw_if (not (m.status == MissionStatus.pending))
        (Exception.bad_request Reason.packages_frozen)
    owned ← verify_packages_ownership package_ids user_id
    throw_if (not owned) (Exception.forbidden Reason.packages_not_owned)
    add_packages mission_id package_ids

  unfoldable pub delete_package_route : ℕ → ℕ → ℕ → Handler P (Unit {0})
  delete_package_route user_id mission_id package_id = do
    m ← load_mission mission_id
    throw_if (not (m.shipper_id == user_id)) (Exception.forbidden Reason.unspecified)
    throw_if (not (m.status == MissionStatus.pending))
        (Exception.bad_request Reason.packages_frozen)
    remove_package mission_id package_id

  unfoldable pub create_pickup_proof : Otp → ℕ → ℕ → ℕ → Handler P Otp
  create_pickup_proof otp new_id user_id mission_id = do
    m ← load_mission mission_id
    throw_if (not (m.status == MissionStatus.accepted))
        (Exception.bad_request Reason.must_be_accepted)
    throw_if (not (m.shipper_id == user_id)) (Exception.forbidden Reason.unspecified)
    carrier_id ← or_throw (Exception.bad_request Reason.no_carrier) m.carrier_id
    create_proof
        (record {
          new_id = new_id;
          mission_id = mission_id;
          type = ProofType.pickup;
          created_by_id = m.shipper_id;
          verified_by_id = carrier_id;
        })
        otp

  unfoldable pub verify_pickup :
      Bcrypt → (now : ℕ) → ℕ → ℕ → String → Handler P (Option MissionProof)
  verify_pickup b now user_id mission_id code = do
    m ← load_mission mission_id
    throw_if (not (m.status == MissionStatus.accepted)) (Exception.bad_request Reason.not_active)
    throw_if (not (is_some_of m.carrier_id user_id)) (Exception.forbidden Reason.unspecified)
    verify b now mission_id ProofType.pickup code user_id

  unfoldable pub verify_delivery :
      Bcrypt → (now : ℕ) → ℕ → ℕ → String → Handler P (Option MissionProof)
  verify_delivery b now user_id mission_id code = do
    m ← load_mission mission_id
    throw_if (not (m.status == MissionStatus.in_transit))
        (Exception.bad_request Reason.not_in_transit)
    throw_if (not (is_some_of m.carrier_id user_id)) (Exception.forbidden Reason.unspecified)
    verify b now mission_id ProofType.delivery code user_id

  -- The guards of `update` on the data and on who sends it.
  unfoldable pub update_guards : ℕ → UpdateMissionDto → Mission → Handler P (Unit {0})
  update_guards user_id d m = do
    throw_if (not (is_member user_id m)) (Exception.forbidden Reason.unspecified)
    throw_if (forbidden_manually d.status) (Exception.bad_request Reason.manual_status)
    throw_if (is_some_of d.status MissionStatus.cancelled && m.status == MissionStatus.disputed)
        (Exception.forbidden Reason.under_dispute)
    throw_if d.carrier_id_given (Exception.bad_request Reason.carrier_is_manual)
    throw_if (sets_recipient d && not (user_id == m.shipper_id))
        (Exception.forbidden Reason.shipper_only)
    throw_if (sets_recipient d && not (includes recipient_statuses m.status))
        (Exception.bad_request Reason.mission_inactive)

  unfoldable pub update_route : ℕ → ℕ → UpdateMissionDto → Handler P Mission
  update_route user_id id d = do m ← load_mission id; update_guards user_id d m; update_mission id d

  unfoldable pub delete_route : ℕ → ℕ → Handler P Mission
  delete_route user_id id = do
    m ← load_mission id
    throw_if (not (m.shipper_id == user_id)) (Exception.forbidden Reason.unspecified)
    throw_if (not (includes (MissionStatus.pending ∷ MissionStatus.cancelled ∷ []) m.status))
        (Exception.bad_request Reason.not_deletable)
    delete_mission id
