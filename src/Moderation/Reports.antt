-- ===== src/Moderation/Reports.antt =====
-- Reports: one for each reporter, reported user and reason.
use ludora_back.Prelude.{ℕ, ◌≡◌, ◌≤◌, true, false, not, ◌&&◌, arith, count, count-le}
use ludora_back.World.{
  Client, UserReport, ReportReason, World, is_ok, is_some, has, find_first-eq_none,
}
use ludora_back.Users.{find_user}
use ludora_back.Moderation.{is_report, CreateReportDto, create_report}

-- Every reporter has reported a user at most once for each reason.
abbrev pub ReportsOnce : World → Type 0
ReportsOnce w = (a b : ℕ) (reason : ReportReason) → count (is_report a b reason) w.user_reports ≤ 1

abbrev pub report_of : ℕ → CreateReportDto → UserReport
report_of a dto = record {
  reporter_uid = a;
  reported_uid = dto.reported_uid;
  reason = dto.reason;
  description = dto.description;
}

module _ ⦃client : Client⦄ where
  -- A report is accepted exactly from a known user, of a known user, for a reason that the reporter
  -- has not given before. It is then recorded once, and a call that fails records nothing.
  pub create_report_outcome :
      (a : ℕ) (dto : CreateReportDto) (w : World)
      → let (r, w') = create_report a dto w in
        let said = is_report a dto.reported_uid dto.reason in
        (is_ok r ≡ (
          is_some (find_user a w)
          && is_some (find_user dto.reported_uid w)
          && not (has said w.user_reports)))
        × (is_ok r ≡ true → count said w'.user_reports ≡ 1)
        × (is_ok r ≡ false → w' ≡ w)
  unfolding create_report
  create_report_outcome a dto w =
      let said = is_report a dto.reported_uid dto.reason in
      let free = find_first-eq_none said w.user_reports in
      let absent = client.find_first-none said w.user_reports in
      let added = client.count-insert (report_of a dto) said w.user_reports in
      (
        ground (arith, free, absent, added),
        λ h. ground (arith, free, absent, added),
        λ h. ground (arith, free, absent, added),
      )

  -- A report keeps the table to at most one report of a user by a user for each reason.
  pub create_report-ReportsOnce :
      (a : ℕ) (dto : CreateReportDto) (w : World)
      → ReportsOnce w
      → ReportsOnce (create_report a dto w).1
  unfolding create_report
  create_report-ReportsOnce a dto w v x y reason = ground (
    arith,
    v x y reason,
    client.count-insert (report_of a dto) (is_report x y reason) w.user_reports,
    count-le (is_report x y reason) (is_report a dto.reported_uid dto.reason) w.user_reports,
  )
