-- ===== src/Reports.antt =====
-- Reports of researchers, `ReportService` (apps/api/src/reports/report.service.ts): the calls of
-- `ReportRepository` and of the AI review queue with their answers. What the service only passes on
-- is a text.
pub mod Hash
pub mod Service
use bug_bounty_escrow.Prelude.{ℕ, String, Bool, Option, List}
use bug_bounty_escrow.Access.{Principal}
use bug_bounty_escrow.Ai.{Text}
use bug_bounty_escrow.Reports.Hash.{Content}

-- An impact of a report: the program's one, or a custom one by its title.
pub record Impact : Type 0 where
  pub program_impact_id : Option Text
  pub is_custom : Bool
  pub title : Text

-- `ReportDetail`, less the fields that the service only passes on.
pub record Report : Type 0 where
  pub id : String
  pub program_id : String
  pub content_hash : String
  pub affected_scope_id : String
  pub title : String
  pub description : String
  pub reproduction_steps : Option String
  pub secret_gist_url : Option String
  pub proposed_severity : String
  pub severity_mismatch_acknowledged : Bool
  pub impacts : List Impact

-- `UpdateReportRequest`: a field that is not given is nothing, and a gist may be given as `null`.
pub record Patch : Type 0 where
  pub affected_scope_id : Option String
  pub title : Option String
  pub description : Option String
  pub reproduction_steps : Option String
  pub secret_gist_url : Option (Option String)
  pub proposed_severity : Option String
  pub severity_mismatch_acknowledged : Option Bool
  pub program_impact_ids : Option (List Text)
  pub custom_impacts : Option (List Text)

pub record Query : Type 0 where
  pub page : ℕ
  pub limit : ℕ
  pub filters : String

pub data Op : Type 0 where
  find_reports : Principal → Query → Op
  filter_options : String → Op
  find_accessible : Principal → String → Op
  get_review : String → Principal → Op
  retry_review : String → String → String → Op
  insert_report : String → String → Content → String → Op
  change_report : String → String → Patch → String → Op
  set_payout_wallet : String → String → String → Op
  request_information : Principal → String → String → Op
  validate : Principal → String → String → Op
  reject : Principal → String → String → Op
  mark_duplicate : Principal → String → String → Op
  reopen : Principal → String → String → Op
  send_back : Principal → String → String → Op
  decide : Principal → String → String → Op
  find_disclosures : String → ℕ → ℕ → Op

abbrev pub Answer : Op → Type 0
Answer (find_reports _ _) = List String × ℕ
Answer (filter_options _) = List String
Answer (find_accessible _ _) = Option Report
Answer (get_review _ _) = Option String
Answer (insert_report _ _ _ _) = String
Answer (find_disclosures _ _ _) = List String × ℕ
Answer _ = Unit {0}
