-- ===== src/Reports/Service.antt =====
-- The operations of `ReportsService` (src/reports/reports.service.ts).
use gp_connect_server.Common.{ℕ, Option, none, some, String, ◌==◌, nat_eq, ◌&&◌}
use gp_connect_server.Schema.{
  Report, ReportStatus, report_status_eq, ReportTarget, report_target_eq, ReportReason,
}
use gp_connect_server.Prisma.{Prisma}
use gp_connect_server.Handler.{
  Handler, Exception, Reason, ◌>>=◌, ◌>>◌, or_throw, throw_if, find_unique, create, update_many,
  reports,
}

-- `CreateReportDto`, with the id that the new row draws.
pub record CreateReportDto : Type 0 where
  pub new_id : ℕ
  pub target_type : ReportTarget
  pub target_id : ℕ
  pub reason : ReportReason
  pub description : Option String

-- The outcomes that `ResolveReportDto` admits.
pub data Outcome : Type 0 where
  reviewed action_taken dismissed : Outcome

abbrev pub report_outcome : Outcome → ReportStatus
report_outcome Outcome.reviewed = ReportStatus.reviewed
report_outcome Outcome.action_taken = ReportStatus.action_taken
report_outcome Outcome.dismissed = ReportStatus.dismissed

pub record ResolveReportDto : Type 0 where
  pub status : Outcome
  pub resolution : Option String

abbrev pub new_report : ℕ → CreateReportDto → Report
new_report reporter_id d = record {
  id = d.new_id;
  reporter_id = reporter_id;
  target_type = d.target_type;
  target_id = d.target_id;
  reason = d.reason;
  description = d.description;
  status = ReportStatus.open_;
  resolution = none;
  reviewed_by_id = none;
  reviewed_at = none;
}

-- A missing resolution leaves the column as it is.
abbrev pub kept_or : Option String → Option String → Option String
kept_or none old = old
kept_or (some s) old = some s

abbrev pub reviewed_by : ℕ → ℕ → ResolveReportDto → Report → Report
reviewed_by now admin_id d r = record r {
  status = report_outcome d.status;
  resolution = kept_or d.resolution r.resolution;
  reviewed_by_id = some admin_id;
  reviewed_at = some now;
}

module _ {P : Prisma} where
  unfoldable pub create_report : ℕ → CreateReportDto → Handler P Report
  create_report reporter_id d = do
    throw_if (d.target_type == ReportTarget.user && d.target_id == reporter_id)
        (Exception.bad_request Reason.self_report)
    create reports (λ r. r.id == d.new_id) (new_report reporter_id d)

  unfoldable pub resolve_report : ℕ → ℕ → ℕ → ResolveReportDto → Handler P (Option Report)
  resolve_report now id admin_id d = do
    found ← find_unique reports id
    or_throw (Exception.not_found Reason.report_not_found) found
    n ←
        update_many reports (λ r. r.id == id && r.status == ReportStatus.open_)
          (reviewed_by now admin_id d)
    throw_if (n == 0) (Exception.bad_request Reason.report_resolved)
    find_unique reports id
