-- ===== src/Deployment/Service/Fees.antt =====
-- The wallet challenge and the fee of a deployment.
use bug_bounty_escrow.Prelude.{
  ℕ, ◌+◌, String, Bool, true, false, not, ◌||◌, Option, none, some, ltb, ◌==◌, if◌then◌else◌,
  eq_ignoring_case, str_eq,
}
use bug_bounty_escrow.Effect.{
  not_found, unavailable, Environment, Action, pure, ◌>>=◌, ◌>>◌, throw_if, require, perform,
}
use bug_bounty_escrow.Access.{Principal, require_owner}
use bug_bounty_escrow.Deployment.{
  QuoteStatus, QuoteRow, ChallengeRow, Answer, now, random_uuid, random_nonce, create_challenge,
  create_quote, find_quote_by_id, find_active_quote, verify_fee_payment, mark_fee_paid,
}
use bug_bounty_escrow.Deployment.Service.{Primitives, arc_usdc, owns}

-- The variables of the configuration that the quote reads.
pub record FeeConfig : Type 0 where
  pub platform_fee_amount : ℕ
  pub deployment_fee_amount : ℕ
  pub admin_contract : Option String
  pub fee_recipient : Option String
  pub platform_fee_chain : Option ℕ
  pub deployment_fee_chain : ℕ
  pub platform_fee_token : Option String
  pub deployment_fee_token : String

abbrev pub or_else {ℓ} : {A : Type ℓ} → Option A → Option A → Option A
or_else none d = d
or_else (some a) d = some a

abbrev value_or {ℓ} : {A : Type ℓ} → Option A → A → A
value_or none d = d
value_or (some a) d = a

abbrev quote_amount : FeeConfig → ℕ
quote_amount c =
    if ltb 0 c.platform_fee_amount then c.platform_fee_amount else c.deployment_fee_amount

abbrev is_paid_already : QuoteStatus → Bool
is_paid_already QuoteStatus.paid = true
is_paid_already _ = false

abbrev arc_chain : ℕ
arc_chain = 5042002

module _ (env : Environment Answer) (h : Primitives) where
  -- `createWalletChallenge`; the message is built of the row that is returned.
  unfoldable pub create_wallet_challenge :
      Principal → String → String → String → Action Answer ChallengeRow
  create_wallet_challenge principal program_id owner_wallet recipient = do
    require_owner (owns env h) principal program_id
    time ← perform env now
    id ← perform env random_uuid
    nonce ← perform env random_nonce
    perform env (
        create_challenge (record {
          id = id;
          actor_id = principal.user_id;
          program_id = program_id;
          owner_wallet = owner_wallet;
          withdraw_recipient = recipient;
          nonce = nonce;
          issued_at = time;
          expires_at = time + 300000;
        }))

  -- `createDeploymentFeeQuote`
  unfoldable pub create_fee_quote : FeeConfig → Principal → String → String → Action Answer QuoteRow
  create_fee_quote c principal program_id key = do
    require_owner (owns env h) principal program_id
    throw_if (quote_amount c == 0) (unavailable "deployment_fee_not_configured")
    recipient ←
        require (or_else c.admin_contract c.fee_recipient)
          (unavailable "deployment_fee_recipient_not_configured")
    throw_if
        (not (value_or c.platform_fee_chain c.deployment_fee_chain == arc_chain)
          || not (eq_ignoring_case (value_or c.platform_fee_token c.deployment_fee_token) arc_usdc))
        (unavailable "deployment_fee_asset_not_supported")
    time ← perform env now
    perform env (
        create_quote (record {
          id = key;
          actor_id = principal.user_id;
          program_id = program_id;
          chain_id = c.platform_fee_chain;
          token_address = c.platform_fee_token;
          recipient_address = recipient;
          amount_base_units = quote_amount c;
          expires_at = time + 1800000;
        }))

  -- `observeDeploymentFeePayment`, from the quote on.
  unfoldable pub observe_quote : String → String → String → QuoteRow → Action Answer QuoteRow
  observe_quote program_id transaction_hash payer quote =
      if is_paid_already quote.status then pure quote else (do
        evidence ← perform env (
            verify_fee_payment (record {
              transaction_hash = transaction_hash;
              payer_address = payer;
              recipient_address = quote.recipient_address;
              token_address = quote.token_address;
              amount_base_units = quote.amount_base_units;
              chain_id = quote.chain_id;
            }))
        perform env (
            mark_fee_paid (record {
              quote_id = quote.id;
              program_id = program_id;
              payer_address = payer;
              transaction_hash = transaction_hash;
              evidence = evidence;
            })))

  -- `observeDeploymentFeePayment`
  unfoldable pub observe_fee_payment :
      Principal → String → String → String → String → Action Answer QuoteRow
  observe_fee_payment principal program_id quote_id transaction_hash payer = do
    require_owner (owns env h) principal program_id
    found ← perform env (find_quote_by_id quote_id)
    quote ← require found not_found
    throw_if (not (str_eq quote.program_id program_id)) not_found
    observe_quote program_id transaction_hash payer quote

  -- `getDeploymentFeeQuote`
  unfoldable pub get_fee_quote : Principal → String → Action Answer (Option QuoteRow)
  get_fee_quote principal program_id = do
    require_owner (owns env h) principal program_id
    perform env (find_active_quote program_id)
