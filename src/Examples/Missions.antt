-- ===== src/Examples/Missions.antt =====
-- Changes of status.
use gp_connect_server.Common.{◌≡◌, refl, none, some, false}
use gp_connect_server.Schema.{Mission, MissionStatus, mission_status_eq}
use gp_connect_server.Prisma.InMemory.{in_memory}
use gp_connect_server.Handler.{ok}
use gp_connect_server.Missions.{
  UpdateMissionDto, with_data, commit_status, validate_status_transition, apply_status_side_effects,
  status_writes,
}
use gp_connect_server.Missions.Transitions.{◌⟶◌, commit_status-⟶}
use gp_connect_server.Missions.SideEffects.{HasFollowed, apply_status_side_effects-HasFollowed}
use gp_connect_server.Examples.Data.{engaged, accepted_mission, trip}

abbrev cancellation : UpdateMissionDto
cancellation = record {
  status = some MissionStatus.cancelled;
  recipient_name = none;
  recipient_phone = none;
  carrier_id_given = false;
}

cancel-runs :
    (commit_status 20 MissionStatus.accepted cancellation engaged).0
    ≡ ok (with_data cancellation accepted_mission)
unfolding commit_status apply_status_side_effects status_writes
cancel-runs = refl

cancel-valid :
    (validate_status_transition 20 MissionStatus.cancelled engaged).0
    ≡ ok (some MissionStatus.accepted)
unfolding validate_status_transition
cancel-valid = refl

commit_status-⟶_example :
    (old : Mission) × (in_memory.mission.find_unique 20 engaged.missions ≡ some old)
    × (in_memory.mission.find_unique 20
          (commit_status 20 MissionStatus.accepted cancellation engaged).1.missions
        ≡ some (with_data cancellation old))
    × (old.status ⟶ (with_data cancellation old).status)
commit_status-⟶_example =
    commit_status-⟶ 20 MissionStatus.cancelled MissionStatus.accepted cancellation engaged engaged
      refl cancel-valid cancel-runs

apply_status_side_effects-HasFollowed_example :
    let run = apply_status_side_effects 20 10 MissionStatus.cancelled engaged in
    (run.0 ≡ ok tt) × HasFollowed 20 10 engaged trip refl MissionStatus.cancelled run.1
apply_status_side_effects-HasFollowed_example =
    apply_status_side_effects-HasFollowed 20 10 engaged trip refl MissionStatus.cancelled
