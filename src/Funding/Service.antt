-- ===== src/Funding/Service.antt =====
-- What the funding methods of `EscrowService` share, and the plain ones: each asks for the owner,
-- reads the intent, checks it, makes one change and reads the intent again. What a method returns is
-- the row; its projection `toFundingIntent` to the response is not modelled.
pub mod Readiness
pub mod Deposits
pub mod Reconciliation
pub mod Routes
pub mod Serve
pub mod Creation
mod Tests
use bug_bounty_escrow.Prelude.{
  ℕ, ◌+◌, String, Bool, true, false, not, ◌&&◌, ◌||◌, Option, none, some, List, [], ◌∷◌, leb,
  if◌then◌else◌, is_none, str_eq, eq_ignoring_case, codes,
}
use bug_bounty_escrow.Effect.{
  Failure, not_found, conflict, unavailable, provider, other, Environment, Action, pure, throw,
  ◌>>=◌, ◌>>◌, catch, throw_if, require, perform,
}
use bug_bounty_escrow.Domain.{ProgramStatus}
use bug_bounty_escrow.Access.{Principal, require_owner}
use bug_bounty_escrow.Usdc.{parse}
use bug_bounty_escrow.Funding.{
  Network, RouteMode, Phase, Source, FeeComponent, FeeAllocation, IntentRow, EscrowRow,
  AllocationInput, CreateInput, NewIntent, Change, Claim, Op, Answer, is_program_owner,
  get_program_status, find_confirmed_escrow, get_usdc_balance, get_total_funded, now, create_intent,
  find_active_intent, find_intent, change_intent, claim,
}

-- `rethrowProviderError`, with the codes of its exceptions.
abbrev pub mapped : Failure → Failure
mapped (provider code true _) = unavailable code
mapped (provider code false _) = conflict code
mapped e = e

abbrev pub is_unified : RouteMode → Bool
is_unified RouteMode.unified_balance = true
is_unified _ = false

abbrev pub is_bridge : RouteMode → Bool
is_bridge RouteMode.bridge = true
is_bridge _ = false

abbrev pub is_send : RouteMode → Bool
is_send RouteMode.send = true
is_send _ = false

abbrev pub is_ready_phase : Phase → Bool
is_ready_phase Phase.ready_for_destination = true
is_ready_phase Phase.collecting_deposits = false

abbrev pub has_operations {ℓ} : {A : Type ℓ} → List A → Bool
has_operations [] = false
has_operations (_ ∷ _) = true

abbrev pub is_fundable : Option ProgramStatus → Bool
is_fundable (some ProgramStatus.draft) = true
is_fundable (some ProgramStatus.awaiting_funding) = true
is_fundable _ = false

abbrev pub arc_usdc : String
arc_usdc = "0x3600000000000000000000000000000000000000"

abbrev pub intent_ttl_ms : ℕ
intent_ttl_ms = 1800000

-- `parseUsdcBaseUnits(text)!.toString()`
abbrev base_units : List ℕ → Action Answer ℕ
base_units text = require (parse text) (other "TypeError")

read_components : List (Network × String × String × List ℕ) → Action Answer (List FeeComponent)
read_components [] = pure []
read_components ((network, kind, token, text) ∷ rest) = ◌>>=◌ (base_units text) (λ amount.
    ◌>>=◌ (read_components rest) (λ more.
      pure (record { network = network; kind = kind; token = token; amount = amount } ∷ more)))

read_allocations : List AllocationInput → Action Answer (List FeeAllocation)
unfolding read_components
read_allocations [] = pure []
read_allocations (a ∷ rest) = ◌>>=◌ (base_units a.amount) (λ amount.
    ◌>>=◌ (read_components a.components) (λ components. ◌>>=◌ (read_allocations rest) (λ more.
      pure (record { network = a.network; amount = amount; components = components } ∷ more))))

read_sources : List (Network × List ℕ) → Action Answer (List Source)
read_sources [] = pure []
read_sources ((network, text) ∷ rest) = ◌>>=◌ (base_units text) (λ amount.
    ◌>>=◌ (read_sources rest) (λ more. pure (record { network = network; amount = amount } ∷ more)))

module _ (env : Environment Answer) where
  pub owns : String → String → Action Answer Bool
  owns program_id user_id = perform env (is_program_owner program_id user_id)

  -- `requireFundingIntent`.
  pub require_intent : String → String → Action Answer IntentRow
  require_intent program_id intent_id = do
    found ← perform env (find_intent program_id intent_id)
    require found not_found

  pub owned_intent : Principal → String → String → Action Answer IntentRow
  unfolding owns require_intent require_owner
  owned_intent principal program_id intent_id = do
    require_owner owns principal program_id
    require_intent program_id intent_id

  -- The checks of `createFundingIntent` on the program and on its escrow.
  fundable_escrow : Principal → String → String → Action Answer EscrowRow
  unfolding owns require_owner
  fundable_escrow principal program_id wallet = do
    require_owner owns principal program_id
    status ← perform env (get_program_status program_id)
    throw_if (not (is_fundable status)) (conflict "program_funding_not_available")
    found ← perform env (find_confirmed_escrow program_id)
    escrow ← require found (conflict "verified_arc_escrow_required")
    token ← require escrow.token_address (conflict "verified_arc_escrow_required")
    throw_if (not (eq_ignoring_case token arc_usdc)) (conflict "verified_arc_escrow_required")
    owner_wallet ← require escrow.owner_wallet (conflict "funding_wallet_must_match_program_owner")
    throw_if (not (eq_ignoring_case owner_wallet wallet))
        (conflict "funding_wallet_must_match_program_owner")
    pure escrow

  -- The `try` of `createFundingIntent`. The two balances are read at once, in this order.
  store_intent : Principal → String → CreateInput → EscrowRow → ℕ → ℕ → Action Answer IntentRow
  unfolding read_allocations read_sources
  store_intent principal program_id given escrow gross fee = do
    balance ← perform env (get_usdc_balance escrow.contract_address)
    funded ← perform env (get_total_funded escrow.contract_address)
    allocations ← read_allocations given.fee_allocations
    sources ← read_sources given.sources
    time ← perform env now
    perform env (
        create_intent (record {
          actor_id = principal.user_id;
          program_id = program_id;
          idempotency_key = given.idempotency_key;
          wallet_address = given.wallet_address;
          gross = gross;
          fee_reserve = fee;
          fee_allocations = allocations;
          sources = sources;
          pre_balance = balance;
          pre_total_funded = funded;
          expires_at = time + intent_ttl_ms;
          quote_quoted_at = given.quote_quoted_at;
          quote_expires_at = given.quote_expires_at;
        }))

  -- `createFundingIntent`.
  pub create : Principal → String → CreateInput → Action Answer IntentRow
  create principal program_id given = do
    escrow ← fundable_escrow principal program_id given.wallet_address
    gross ← require (parse given.gross_amount) (conflict "funding_amount_invalid")
    fee ← require (parse given.estimated_fee_reserve) (conflict "funding_amount_invalid")
    catch (store_intent principal program_id given escrow gross fee) (λ e. throw (mapped e))

  -- `getActiveFundingIntent`: an expired intent without any operation is not found.
  pub active : Principal → String → Action Answer IntentRow
  unfolding owns require_owner
  active principal program_id = do
    require_owner owns principal program_id
    found ← perform env (find_active_intent program_id)
    row ← require found not_found
    time ← perform env now
    throw_if
        (leb row.expires_at time
          && (is_none row.destination_transaction_hash
              && not (has_operations row.funding_operations)))
        not_found
    pure row

  -- A change, and the intent read again.
  pub change : Change → Principal → String → String → Action Answer IntentRow
  unfolding require_intent
  change what principal program_id intent_id = do
    perform env (change_intent what principal.user_id program_id intent_id)
    require_intent program_id intent_id

  -- A claim, and the intent read again; who loses the claim gets a conflict.
  pub win : Claim → String → Principal → String → String → Action Answer IntentRow
  unfolding require_intent
  win what code principal program_id intent_id = do
    acquired ← perform env (claim what principal.user_id program_id intent_id)
    throw_if (not acquired) (conflict code)
    require_intent program_id intent_id
