-- ===== src/Programs/Service.antt =====
-- The methods of `ProgramService`.
pub mod Permissions
mod Tests
use bug_bounty_escrow.Prelude.{
  ℕ, ◌+◌, String, Bool, true, false, not, Option, none, some, List, if◌then◌else◌,
}
use bug_bounty_escrow.Effect.{
  forbidden, not_found, Environment, Action, pure, throw, ◌>>=◌, ◌>>◌, throw_if, require, perform,
}
use bug_bounty_escrow.Access.{Role, Principal, same_role}
use bug_bounty_escrow.Pagination.{Pagination, pagination}
use bug_bounty_escrow.Programs.{
  Transaction, Query, Answer, list_public, list_owned, find_accessible, find_accessible_by_slug,
  find_owned, insert, change, record_deployment, add_funds, set_published, set_status, is_owner,
  is_assigned_reviewer, find_reviewers, add_reviewer, drop_reviewer, sign_logo_upload, now,
  find_transactions, find_transaction,
}

-- The routes that need a principal, and the two that may have one.
pub data Request : Type 0 where
  owned_list : Query → Request
  get_one : String → Request
  get_by_slug : String → Request
  get_own : String → Request
  create_one : String → Request
  update_one : String → String → Request
  deploy_escrow : String → String → Request
  fund_one : String → String → Request
  publish_one : String → Request
  change_status : String → String → Request
  reviewers : String → Request
  assign : String → String → Request
  remove : String → String → Request
  logo_upload : String → String → Request
  transactions : String → ℕ → ℕ → Request
  one_transaction : String → Request

-- What a route answers with.
pub data Reply : Type 0 where
  programs : List String → Pagination → Reply
  program : String → Reply
  reviewer_list : List String → Reply
  upload : String → String → ℕ → Reply
  transaction_list : List Transaction → Pagination → Reply
  transaction : Transaction → Reply

module _ (env : Environment Answer) where
  -- `requireOwner`
  unfoldable pub require_role : Principal → Action Answer (Unit {0})
  require_role principal = if same_role principal.role Role.owner then pure tt else throw forbidden

  -- The second test of `requireReviewAccess`.
  unfoldable pub require_assigned : Principal → String → Action Answer (Unit {0})
  require_assigned principal id = do
    assigned ← perform env (is_assigned_reviewer id principal)
    throw_if (not assigned) not_found

  -- `requireReviewAccess`
  unfoldable pub require_review_access : Principal → String → Action Answer (Unit {0})
  require_review_access principal id = do
    owned ← perform env (is_owner id principal.user_id)
    if owned then pure tt else require_assigned principal id

  -- `listPublic`
  unfoldable pub list_public_programs : Query → Action Answer Reply
  list_public_programs query = do
    found ← perform env (list_public query)
    pure (programs found.0 (pagination query.page query.limit found.1))

  -- `listOwned`
  unfoldable pub list_owned_programs : Principal → Query → Action Answer Reply
  list_owned_programs principal query = do
    require_role principal
    found ← perform env (list_owned principal.user_id query)
    pure (programs found.0 (pagination query.page query.limit found.1))

  -- `get`
  unfoldable pub get : String → Option Principal → Action Answer Reply
  get id principal = do
    found ← perform env (find_accessible id principal)
    text ← require found not_found
    pure (program text)

  -- `getBySlug`
  unfoldable pub get_with_slug : String → Option Principal → Action Answer Reply
  get_with_slug slug principal = do
    found ← perform env (find_accessible_by_slug slug principal)
    text ← require found not_found
    pure (program text)

  -- `getOwned`
  unfoldable pub get_owned : Principal → String → Action Answer Reply
  get_owned principal id = do
    require_role principal
    found ← perform env (find_owned id principal)
    text ← require found not_found
    pure (program text)

  -- `create`
  unfoldable pub create : Principal → String → Action Answer Reply
  create principal input = do
    require_role principal
    id ← perform env (insert principal.user_id input)
    get id (some principal)

  -- `update`
  unfoldable pub update : Principal → String → String → Action Answer Reply
  update principal id input = do
    require_role principal
    perform env (change principal.user_id id input)
    get id (some principal)

  -- `deployEscrow`
  unfoldable pub deploy_program_escrow : Principal → String → String → Action Answer Reply
  deploy_program_escrow principal id input = do
    require_role principal
    perform env (record_deployment principal.user_id id input)
    get id (some principal)

  -- `fund`
  unfoldable pub fund : Principal → String → String → Action Answer Reply
  fund principal id input = do
    require_role principal
    perform env (add_funds principal.user_id id input)
    get id (some principal)

  -- `publish`
  unfoldable pub publish : Principal → String → Action Answer Reply
  publish principal id = do
    require_role principal
    perform env (set_published principal.user_id id)
    get id (some principal)

  -- `changeStatus`
  unfoldable pub set_program_status : Principal → String → String → Action Answer Reply
  set_program_status principal id status = do
    require_role principal
    perform env (set_status principal.user_id id status)
    get id (some principal)

  -- `listReviewers`
  unfoldable pub list_reviewers : Principal → String → Action Answer Reply
  list_reviewers principal id = do
    require_review_access principal id
    found ← perform env (find_reviewers id)
    pure (reviewer_list found)

  -- `assignReviewer`
  unfoldable pub assign_reviewer : Principal → String → String → Action Answer Reply
  assign_reviewer principal id reviewer = do
    require_role principal
    perform env (add_reviewer principal.user_id id reviewer)
    found ← perform env (find_reviewers id)
    pure (reviewer_list found)

  -- `removeReviewer`
  unfoldable pub remove_reviewer : Principal → String → String → Action Answer Reply
  remove_reviewer principal id reviewer = do
    require_role principal
    perform env (drop_reviewer principal.user_id id reviewer)
    found ← perform env (find_reviewers id)
    pure (reviewer_list found)

  -- `createLogoUploadUrl`, with `SIGNED_URL_TTL_SECONDS`
  unfoldable pub create_logo_upload : Principal → String → String → Action Answer Reply
  create_logo_upload principal id input = do
    require_role principal
    owned ← perform env (is_owner id principal.user_id)
    throw_if (not owned) not_found
    signed ← perform env (sign_logo_upload id input)
    time ← perform env now
    pure (upload signed.0 signed.1 (time + 60000))

  -- `listTransactions`
  unfoldable pub list_transactions : Principal → String → ℕ → ℕ → Action Answer Reply
  list_transactions principal id page limit = do
    require_review_access principal id
    found ← perform env (find_transactions id page limit)
    pure (transaction_list found.0 (pagination page limit found.1))

  -- `getTransaction`
  unfoldable pub get_transaction : Principal → String → Action Answer Reply
  get_transaction principal hash = do
    found ← perform env (find_transaction hash)
    row ← require found not_found
    require_review_access principal row.program_id
    pure (transaction row)

  unfoldable pub serve : Principal → Request → Action Answer Reply
  serve p (owned_list query) = list_owned_programs p query
  serve p (get_one id) = get id (some p)
  serve p (get_by_slug slug) = get_with_slug slug (some p)
  serve p (get_own id) = get_owned p id
  serve p (create_one input) = create p input
  serve p (update_one id input) = update p id input
  serve p (deploy_escrow id input) = deploy_program_escrow p id input
  serve p (fund_one id input) = fund p id input
  serve p (publish_one id) = publish p id
  serve p (change_status id status) = set_program_status p id status
  serve p (reviewers id) = list_reviewers p id
  serve p (assign id reviewer) = assign_reviewer p id reviewer
  serve p (remove id reviewer) = remove_reviewer p id reviewer
  serve p (logo_upload id input) = create_logo_upload p id input
  serve p (transactions id page limit) = list_transactions p id page limit
  serve p (one_transaction hash) = get_transaction p hash
