-- ===== src/Examples/Routes.antt =====
-- Updates of missions by hand, and delivery codes.
use gp_connect_server.Common.{◌≡◌, refl, some, true, [], ◌∷◌, String, Bool}
use gp_connect_server.Schema.{MissionStatus, Advertisement, AdvertisementStatus}
use gp_connect_server.Prisma.{World}
use gp_connect_server.Prisma.InMemory.{in_memory}
use gp_connect_server.Handler.{ok}
use gp_connect_server.Missions.{
  update_mission, validate_status_transition, commit_status, apply_status_side_effects,
  status_writes,
}
use gp_connect_server.Missions.Transitions.{withdraw}
use gp_connect_server.MissionRoutes.{update_route, update_guards}
use gp_connect_server.MissionRoutes.Updates.{IsUpdated, update_route-ok}
use gp_connect_server.MissionRoutes.Cancelling.{cancellation, IsCancelled, update_route-IsCancelled}
use gp_connect_server.Proofs.{
  Otp, create_proof, delivery_code_guards, send_to_recipient, generate_delivery_code,
}
use gp_connect_server.Proofs.Issue.{IsIssued, generate_delivery_code-IsIssued, reply_of}
use gp_connect_server.Examples.Data.{
  accepted_mission, rival_mission, trip, engaged, moving_mission, moving,
}

-- The trip is under way, and the shipper 3 has opened a conversation, and with it a mission, since.
abbrev busy_trip : Advertisement
busy_trip = record trip { status = AdvertisementStatus.in_progress }

abbrev late_comer : World in_memory
late_comer = record engaged {
  missions = accepted_mission ∷ rival_mission ∷ [];
  advertisements = busy_trip ∷ [];
}

cancel-runs :
    (update_route 3 21 cancellation late_comer).0
    ≡ ok (record rival_mission { status = MissionStatus.cancelled })
unfolding update_route update_guards update_mission validate_status_transition commit_status
    apply_status_side_effects status_writes
cancel-runs = refl

update_route-ok_example :
    IsUpdated 3 21 cancellation late_comer (update_route 3 21 cancellation late_comer).1
update_route-ok_example = update_route-ok 3 21 cancellation late_comer cancel-runs

update_route-IsCancelled_example :
    let run = update_route 3 21 cancellation late_comer in
    (run.0 ≡ ok (record rival_mission { status = MissionStatus.cancelled }))
    × IsCancelled rival_mission busy_trip late_comer run.1
update_route-IsCancelled_example =
    update_route-IsCancelled 3 late_comer rival_mission busy_trip refl refl refl withdraw

abbrev reachable : World in_memory
reachable = record moving { missions = record moving_mission { recipient_phone = some "+33" } ∷ [] }

abbrev code : Otp
code = record { plain = "4321"; hash = "4321"; expires_at = 800 }

abbrev gateway : String → Bool
gateway number = true

issue-runs : (generate_delivery_code gateway code 61 20 1 reachable).0 ≡ ok (reply_of code true)
unfolding generate_delivery_code create_proof delivery_code_guards send_to_recipient
issue-runs = refl

generate_delivery_code-IsIssued_example :
    IsIssued gateway code 20 1 reachable
      (generate_delivery_code gateway code 61 20 1 reachable).1
      (reply_of code true)
generate_delivery_code-IsIssued_example =
    generate_delivery_code-IsIssued gateway code 61 20 1 reachable issue-runs
