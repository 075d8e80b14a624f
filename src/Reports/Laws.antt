-- ===== src/Reports/Laws.antt =====
-- The closing of reports.
use gp_connect_server.Common.{ℕ, ◌≡◌, refl, ◌≢◌, inl, inr, Option, some, arith, ◌==◌, nat_eq, ◌&&◌}
use gp_connect_server.Schema.{Report, ReportStatus, report_status_eq, report_status_beq_iff}
use gp_connect_server.Prisma.{Prisma, World, lock-cases, find_unique-locked, find_unique-locked_ne}
use gp_connect_server.Handler.{Exception, Reason, ok, err}
use gp_connect_server.Reports.Service.{
  Outcome, report_outcome, ResolveReportDto, reviewed_by, resolve_report,
}

report_outcome-final : (o : Outcome) → report_outcome o ≢ ReportStatus.open_
report_outcome-final Outcome.reviewed h = ground arith
report_outcome-final Outcome.action_taken h = ground arith
report_outcome-final Outcome.dismissed h = ground arith

module _ {P : Prisma} where
  -- What closing a report did.
  pub record IsReviewed (now id admin_id : ℕ) (d : ResolveReportDto) (w w' : World P)
      (r : Option Report) : Type 0 where
    pub report : Report
    pub found : P.report.find_unique id w.reports ≡ some report
    pub was_open : report.status ≡ ReportStatus.open_
    pub stored : P.report.find_unique id w'.reports ≡ some (reviewed_by now admin_id d report)
    pub returned : r ≡ some (reviewed_by now admin_id d report)
    pub others :
        (j : ℕ) → j ≢ id → P.report.find_unique j w'.reports ≡ P.report.find_unique j w.reports

  -- A report that is closed was open, carries the admin and the outcome afterwards and is returned so;
  -- no other report changes.
  pub resolve_report-ok :
      (now id admin_id : ℕ) (d : ResolveReportDto) (w : World P) {r : Option Report}
      → (resolve_report now id admin_id d w).0 ≡ ok r
      → IsReviewed now id admin_id d w (resolve_report now id admin_id d w).1 r
  unfolding resolve_report
  resolve_report-ok now id admin_id d w h =
      let q = λ (x : Report). x.status == ReportStatus.open_ in
      elim (lock-cases P.report id q w.reports) [
        | inl z ↦ absurd (ground arith)
        | inr (n, (x, f, k, p)) ↦
            let f' =
              find_unique-locked P.report id q (reviewed_by now admin_id d) w.reports x (λ b. refl)
                f p in
            record {
              report = x;
              found = f;
              was_open = (report_status_beq_iff x.status ReportStatus.open_).0 p;
              stored = ground (arith, f');
              returned = ground (arith, f');
              others = λ j ne. ground (
                arith,
                find_unique-locked_ne P.report j id q (reviewed_by now admin_id d) w.reports
                    (λ b. refl) ne,
              );
            }
      ]

  resolve_report-closed :
      (now id admin_id : ℕ) (d : ResolveReportDto) (w : World P) (x : Report)
      → P.report.find_unique id w.reports ≡ some x
      → x.status ≢ ReportStatus.open_
      → resolve_report now id admin_id d w ≡ (err (Exception.bad_request Reason.report_resolved), w)
  unfolding resolve_report
  resolve_report-closed now id admin_id d w x f ne =
      let q = λ (y : Report). y.status == ReportStatus.open_ in
      elim (lock-cases P.report id q w.reports) [
        | inl z ↦
            let same =
              P.report.update_many-none (λ y. y.id == id && q y) (reviewed_by now admin_id d)
                w.reports z in
            ground arith
        | inr (n, (y, f', k, p)) ↦
            absurd (ground (arith, report_status_beq_iff y.status ReportStatus.open_))
      ]

  -- Two admins on one report: once the first has closed it, the second is refused and writes nothing.
  pub resolve_report-once :
      (now now' id admin_id admin_id' : ℕ) (d d' : ResolveReportDto) (w : World P)
      {r : Option Report}
      → (resolve_report now id admin_id d w).0 ≡ ok r
      → let w' = (resolve_report now id admin_id d w).1 in
        resolve_report now' id admin_id' d' w'
        ≡ (err (Exception.bad_request Reason.report_resolved), w')
  resolve_report-once now now' id admin_id admin_id' d d' w h =
      let r = resolve_report-ok now id admin_id d w h in
      resolve_report-closed now' id admin_id' d' (resolve_report now id admin_id d w).1
        (reviewed_by now admin_id d r.report) r.stored (report_outcome-final d.status)
