-- ===== src/Examples/Closing.antt =====
-- Appointments, ratings, reports and payments.
use gp_connect_server.Common.{◌≡◌, refl, none, some, [], ◌∷◌}
use gp_connect_server.Schema.{
  MissionStatus, MessageAppointment, AppointmentStatus, AppointmentType, Report, ReportStatus,
  ReportTarget, ReportReason, TransactionMethod,
}
use gp_connect_server.Prisma.{World}
use gp_connect_server.Prisma.InMemory.{in_memory}
use gp_connect_server.Handler.{ok}
use gp_connect_server.Appointments.{
  Decision, update_appointment, load_appointment, decision_guards, commit_decision,
}
use gp_connect_server.Ratings.{
  CreateRatingDto, new_rating, create_rating, rating_guards, store_rating,
}
use gp_connect_server.Reports.{Outcome, ResolveReportDto, reviewed_by, resolve_report}
use gp_connect_server.Transactions.{update_transaction}
use gp_connect_server.Examples.Data.{accepted_mission, negotiation, engaged, payment}

abbrev appointment : MessageAppointment
appointment = record {
  id = 40;
  type = AppointmentType.pickup;
  scheduled_at = 500;
  status = AppointmentStatus.pending;
}

abbrev invited : World in_memory
invited = record negotiation { appointments = appointment ∷ [] }

accepts-runs :
    (update_appointment 40 2 Decision.accepted invited).0
    ≡ ok (some (record appointment { status = AppointmentStatus.accepted }))
unfolding update_appointment load_appointment decision_guards commit_decision
accepts-runs = refl

decides-runs :
    (commit_decision 40 30 Decision.accepted invited).0
    ≡ ok (some (record appointment { status = AppointmentStatus.accepted }))
unfolding commit_decision
decides-runs = refl

abbrev done : World in_memory
done = record engaged {
  missions = record accepted_mission { status = MissionStatus.completed } ∷ [];
}

abbrev five_stars : CreateRatingDto
five_stars = record { new_id = 90; score = 5; comment = none }

rating-runs : (create_rating 20 1 five_stars done).0 ≡ ok (new_rating 20 1 2 five_stars)
unfolding create_rating rating_guards store_rating
rating-runs = refl

abbrev report : Report
report = record {
  id = 95;
  reporter_id = 1;
  target_type = ReportTarget.user;
  target_id = 2;
  reason = ReportReason.spam;
  description = none;
  status = ReportStatus.open_;
  resolution = none;
  reviewed_by_id = none;
  reviewed_at = none;
}

abbrev reported : World in_memory
reported = record negotiation { reports = report ∷ [] }

abbrev dismissal : ResolveReportDto
dismissal = record { status = Outcome.dismissed; resolution = some "unfounded" }

resolve-runs :
    (resolve_report 200 95 9 dismissal reported).0 ≡ ok (some (reviewed_by 200 9 dismissal report))
unfolding resolve_report
resolve-runs = refl

repaid-runs :
    (update_transaction 70 1 (some TransactionMethod.paypal) engaged).0
    ≡ ok (record payment { method = TransactionMethod.paypal })
unfolding update_transaction
repaid-runs = refl
