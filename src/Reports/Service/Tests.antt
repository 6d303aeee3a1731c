-- ===== src/Reports/Service/Tests.antt =====
-- Reports in a scripted world, and the theorems at them.
use bug_bounty_escrow.Prelude.{String, true, false, none, some, []}
use bug_bounty_escrow.Effect.{returned, fresh, Environment}
use bug_bounty_escrow.Access.{Role, Principal}
use bug_bounty_escrow.Reports.Hash.{Content}
use bug_bounty_escrow.Reports.{
  Report, Patch, Answer, find_reports, filter_options, find_accessible, get_review, insert_report,
  find_disclosures,
}
use bug_bounty_escrow.Reports.Service.{serve, update_one}
use bug_bounty_escrow.Reports.Service.Permissions.{IsAuthored, serve-IsAuthored}

abbrev digest : Content → String
digest c = c.title

abbrev report : Report
report = record {
  id = "report";
  program_id = "program";
  content_hash = "Old";
  affected_scope_id = "scope";
  title = "Old";
  description = "text";
  reproduction_steps = none;
  secret_gist_url = none;
  proposed_severity = "high";
  severity_mismatch_acknowledged = false;
  impacts = [];
}

abbrev patch : Patch
patch = record {
  affected_scope_id = none;
  title = some "New";
  description = none;
  reproduction_steps = none;
  secret_gist_url = some none;
  proposed_severity = none;
  severity_mismatch_acknowledged = none;
  program_impact_ids = none;
  custom_impacts = none;
}

abbrev world : Environment Answer
world n (find_reports _ _) = returned ([], 0)
world n (filter_options _) = returned []
world n (find_accessible _ _) = returned (some report)
world n (get_review _ _) = returned none
world n (insert_report _ _ _ _) = returned "report"
world n (find_disclosures _ _ _) = returned ([], 0)
world n _ = returned tt

abbrev rick : Principal
rick = record { user_id = "rick"; role = Role.researcher }

abbrev alice : Principal
alice = record { user_id = "alice"; role = Role.owner }

serve-IsAuthored_example :
    IsAuthored digest rick
      (serve world true digest rick (update_one "report" patch) (fresh Answer)).1.calls
serve-IsAuthored_example =
    serve-IsAuthored world true digest rick (update_one "report" patch) (fresh Answer) tt
