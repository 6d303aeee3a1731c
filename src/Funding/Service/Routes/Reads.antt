-- ===== src/Funding/Service/Routes/Reads.antt =====
-- The reads of the funding that return no intent: the history of the operations, and the latest
-- confirmation. The projections of the rows to responses are left out.
use bug_bounty_escrow.Prelude.{ℕ, ◌*◌, String, Bool, List, ltb}
use bug_bounty_escrow.Effect.{not_found, Environment, Action, pure, ◌>>=◌, ◌>>◌, require, perform}
use bug_bounty_escrow.Access.{Principal, require_owner}
use bug_bounty_escrow.Funding.{
  OperationRow, HistoryKind, ArtifactRow, Answer, list_operations, find_latest_confirmation,
}
use bug_bounty_escrow.Funding.Service.{owns, owned_intent}

-- The query of the history.
pub record HistoryQuery : Type 0 where
  pub page : ℕ
  pub limit : ℕ
  pub kind : HistoryKind

pub record History : Type 0 where
  pub items : List OperationRow
  pub page : ℕ
  pub limit : ℕ
  pub total : ℕ
  pub has_more : Bool

module _ (env : Environment Answer) (principal : Principal) (program_id : String) where
  -- `getFundingOperationHistory`.
  unfoldable pub get_history : String → HistoryQuery → Action Answer History
  get_history intent_id query = do
    owned_intent env principal program_id intent_id
    found ← perform env (list_operations intent_id query.page query.limit query.kind)
    pure (record {
      items = found.rows;
      page = query.page;
      limit = query.limit;
      total = found.total;
      has_more = ltb (query.page * query.limit) found.total;
    })

  -- `getLatestFundingConfirmation`.
  unfoldable pub get_latest_confirmation : Action Answer ArtifactRow
  unfolding owns require_owner
  get_latest_confirmation = do
    require_owner (owns env) principal program_id
    found ← perform env (find_latest_confirmation program_id)
    require found not_found
