-- ===== src/Examples/Disputes.antt =====
-- Disputes.
use gp_connect_server.Common.{◌≡◌, refl, none}
use gp_connect_server.Handler.{ok}
use gp_connect_server.Missions.{apply_status_side_effects, status_writes}
use gp_connect_server.Disputes.{
  CreateDisputeDto, ResolveDisputeDto, Outcome, new_dispute, create_dispute,
  load_disputable_mission, open_dispute_transaction, email_user,
}
use gp_connect_server.Disputes.Laws.{IsOpened, create_dispute-ok}
use gp_connect_server.Examples.Data.{engaged}

abbrev late : CreateDisputeDto
late = record { new_id = 80; reason = "late"; description = none }

create-runs : (create_dispute 20 1 late engaged).0 ≡ ok (new_dispute 20 1 late)
unfolding create_dispute load_disputable_mission open_dispute_transaction apply_status_side_effects
    status_writes email_user
create-runs = refl

create_dispute-ok_example : IsOpened 20 1 late engaged (create_dispute 20 1 late engaged).1
create_dispute-ok_example = create_dispute-ok 20 1 late engaged refl create-runs

abbrev in_favour : ResolveDisputeDto
in_favour = record { resolution = "delivered"; outcome = Outcome.completed }
