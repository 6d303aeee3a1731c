-- ===== src/Reports/Service.antt =====
-- The methods of `ReportService`.
pub mod Permissions
mod Tests
use bug_bounty_escrow.Prelude.{
  ℕ, String, Bool, true, false, not, ◌&&◌, ◌||◌, Option, none, some, List, [], ◌∷◌, map, filter,
  if◌then◌else◌, str_eq,
}
use bug_bounty_escrow.Effect.{
  Failure, forbidden, not_found, unavailable, gone, other, Environment, Action, pure, throw, ◌>>=◌,
  ◌>>◌, catch, require, perform,
}
use bug_bounty_escrow.Access.{Role, Principal, same_role}
use bug_bounty_escrow.Pagination.{Pagination, pagination}
use bug_bounty_escrow.Ai.{Text}
use bug_bounty_escrow.Reports.Hash.{Content, content_hash}
use bug_bounty_escrow.Reports.{
  Impact, Report, Patch, Query, Answer, find_reports, filter_options, find_accessible, get_review,
  retry_review, insert_report, change_report, set_payout_wallet, request_information, validate,
  reject, mark_duplicate, reopen, send_back, decide, find_disclosures,
}

-- `ReviewAction`
pub data ReviewAction : Type 0 where
  approve confirm_payment duplicate information pay reject_report validate_report : ReviewAction

abbrev value_or {ℓ} : {A : Type ℓ} → Option A → A → A
value_or none d = d
value_or (some a) d = a

abbrev first_given {ℓ} : {A : Type ℓ} → Option A → Option A → Option A
first_given none d = d
first_given (some a) d = some a

abbrev keep_ids : List Impact → List Text
keep_ids [] = []
keep_ids (i ∷ is) = elim i.program_impact_id [ none ↦ keep_ids is | some id ↦ id ∷ keep_ids is ]

abbrev custom_titles : List Impact → List Text
custom_titles is = map (λ i. i.title) (filter (λ i. i.is_custom) is)

-- The content after an edit, `merged`.
unfoldable pub merge : Patch → Report → Content
merge patch r = record {
  affected_scope_id = value_or patch.affected_scope_id r.affected_scope_id;
  title = value_or patch.title r.title;
  description = value_or patch.description r.description;
  reproduction_steps = first_given patch.reproduction_steps r.reproduction_steps;
  secret_gist_url = value_or patch.secret_gist_url r.secret_gist_url;
  proposed_severity = value_or patch.proposed_severity r.proposed_severity;
  severity_mismatch_acknowledged =
      value_or patch.severity_mismatch_acknowledged r.severity_mismatch_acknowledged;
  program_impact_ids = value_or patch.program_impact_ids (keep_ids r.impacts);
  custom_impacts = value_or patch.custom_impacts (custom_titles r.impacts);
}

abbrev is_researcher : Role → Bool
is_researcher role = same_role role Role.researcher

abbrev is_owner : Role → Bool
is_owner role = same_role role Role.owner

abbrev is_reviewer : Role → Bool
is_reviewer role = same_role role Role.reviewer

-- `error instanceof DatabaseError`
abbrev is_database : Failure → Bool
is_database (other name) = str_eq name "DatabaseError"
is_database _ = false

-- A report with its AI review, if there is one.
pub record Detail : Type 0 where
  pub report : Report
  pub ai_review : Option String

-- Whether there is an AI review queue, and the SHA-256 of the JSON of an object.
module _ (env : Environment Answer) (has_reviews : Bool) (digest : Content → String) where
  unfoldable pub allow : Bool → Action Answer (Unit {0})
  allow may = if may then pure tt else throw forbidden

  -- `list`
  unfoldable pub list_reports : Principal → Query → Action Answer (List String × Pagination)
  list_reports principal query = do
    found ← perform env (find_reports principal query)
    pure (found.0, pagination query.page query.limit found.1)

  -- `listProgramFilterOptions`
  unfoldable pub list_filter_options : Principal → Action Answer (List String)
  list_filter_options principal = do
    allow (is_researcher principal.role)
    perform env (filter_options principal.user_id)

  -- `listPublicDisclosures`
  unfoldable pub list_disclosures : String → ℕ → ℕ → Action Answer (List String × Pagination)
  list_disclosures program_id page limit = do
    found ← perform env (find_disclosures program_id page limit)
    pure (found.0, pagination page limit found.1)

  unfoldable pub accessible : Principal → String → Action Answer Report
  accessible principal id = do
    found ← perform env (find_accessible principal id)
    require found not_found

  unfoldable pub with_review : Principal → Report → Action Answer Detail
  with_review principal report =
      if has_reviews
      then (do
        review ← perform env (get_review report.id principal)
        pure (record { report = report; ai_review = review }))
      else pure (record { report = report; ai_review = none })

  -- `get`
  unfoldable pub get : Principal → String → Action Answer Detail
  get principal id = do report ← accessible principal id; with_review principal report

  -- The `try` of `generateAiReview`.
  unfoldable pub retry : Report → Action Answer (Unit {0})
  retry report =
      catch (perform env (retry_review report.id report.program_id report.content_hash)) (λ e.
        throw (
          if is_database e then e else unavailable "AI review recovery is temporarily unavailable"))

  -- `generateAiReview`
  unfoldable pub generate_ai_review : Principal → String → Action Answer Detail
  generate_ai_review principal id = do
    allow (is_researcher principal.role || (is_owner principal.role || is_reviewer principal.role))
    report ← accessible principal id
    if has_reviews then retry report else throw (unavailable "AI review recovery is unavailable")
    get principal report.id

  -- `submit`
  unfoldable pub submit : Principal → String → Content → Action Answer Detail
  submit principal program_id input = do
    allow (is_researcher principal.role || is_owner principal.role)
    id ← perform env (insert_report principal.user_id program_id input (content_hash digest input))
    get principal id

  -- `update`
  unfoldable pub update : Principal → String → Patch → Action Answer Detail
  update principal id patch = do
    allow (is_researcher principal.role)
    current ← get principal id
    perform env (
        change_report principal.user_id id patch (content_hash digest (merge patch current.report)))
    get principal id

  -- `updatePayoutWallet`
  unfoldable pub update_payout_wallet : Principal → String → String → Action Answer Detail
  update_payout_wallet principal id input = do
    allow (is_researcher principal.role)
    perform env (set_payout_wallet principal.user_id id input)
    get principal id

  -- The `switch` of `review`. The controller refuses `approve`, `pay` and `confirm_payment` itself, with
  -- the same exception, and does not call the service for them.
  unfoldable pub act : ReviewAction → Principal → String → String → Action Answer (Unit {0})
  act information principal id input = perform env (request_information principal id input)
  act validate_report principal id input = perform env (validate principal id input)
  act reject_report principal id input = perform env (reject principal id input)
  act duplicate principal id input = perform env (mark_duplicate principal id input)
  act approve principal id input = throw (gone "reward_settlement_flow_required")
  act pay principal id input = throw (gone "reward_settlement_flow_required")
  act confirm_payment principal id input = throw (gone "reward_settlement_flow_required")

  -- `review`
  unfoldable pub review : ReviewAction → Principal → String → String → Action Answer Detail
  review action principal id input = do
    allow (is_owner principal.role || is_reviewer principal.role)
    act action principal id input
    get principal id

  -- `reopenDuplicate`
  unfoldable pub reopen_duplicate : Principal → String → String → Action Answer Detail
  reopen_duplicate principal id input = do
    allow (is_owner principal.role)
    perform env (reopen principal id input)
    get principal id

  -- `sendBackForReview`
  unfoldable pub send_back_for_review : Principal → String → String → Action Answer Detail
  send_back_for_review principal id input = do
    allow (is_owner principal.role)
    perform env (send_back principal id input)
    get principal id

  -- `decideDisclosure`
  unfoldable pub decide_disclosure : Principal → String → String → Action Answer Detail
  decide_disclosure principal id input = do
    allow (is_owner principal.role)
    perform env (decide principal id input)
    get principal id

-- The routes that read or change one report.
pub data Request : Type 0 where
  get_one : String → Request
  generate_one : String → Request
  submit_one : String → Content → Request
  update_one : String → Patch → Request
  wallet_one : String → String → Request
  review_one : ReviewAction → String → String → Request
  reopen_one : String → String → Request
  send_back_one : String → String → Request
  decide_one : String → String → Request

unfoldable pub serve :
    Environment Answer → Bool → (Content → String) → Principal → Request → Action Answer Detail
serve env b d p (get_one id) = get env b d p id
serve env b d p (generate_one id) = generate_ai_review env b d p id
serve env b d p (submit_one program_id input) = submit env b d p program_id input
serve env b d p (update_one id patch) = update env b d p id patch
serve env b d p (wallet_one id input) = update_payout_wallet env b d p id input
serve env b d p (review_one action id input) = review env b d action p id input
serve env b d p (reopen_one id input) = reopen_duplicate env b d p id input
serve env b d p (send_back_one id input) = send_back_for_review env b d p id input
serve env b d p (decide_one id input) = decide_disclosure env b d p id input
