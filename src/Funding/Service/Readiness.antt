-- ===== src/Funding/Service/Readiness.antt =====
-- `evaluateGatewayFundingReadiness`: does the confirmed balance of every source cover its share.
pub mod Covered
use bug_bounty_escrow.Prelude.{
  ℕ, ◌+◌, ◌-◌, String, Bool, true, false, ◌&&◌, Option, none, some, List, [], ◌∷◌, ltb, ◌==◌, all,
  if◌then◌else◌,
}
use bug_bounty_escrow.Effect.{other, Environment, Action, pure, ◌>>=◌, require, perform}
use bug_bounty_escrow.Usdc.{parse, format}
use bug_bounty_escrow.Funding.{
  Network, arc_testnet, ethereum_sepolia, arbitrum_sepolia, base_sepolia, Source, FeeAllocation,
  IntentRow, Answer, gateway_balance,
}

abbrev pub same_network : Network → Network → Bool
same_network arc_testnet arc_testnet = true
same_network ethereum_sepolia ethereum_sepolia = true
same_network arbitrum_sepolia arbitrum_sepolia = true
same_network base_sepolia base_sepolia = true
same_network _ _ = false

-- `new Map(entries).get(network)`: a later entry replaces an earlier one.
unfoldable pub fee_of : Network → List FeeAllocation → Option ℕ
fee_of n [] = none
fee_of n (a ∷ rest) = elim (fee_of n rest) [
  | some fee ↦ some fee
  | none ↦ if same_network a.network n then some a.amount else none
]

abbrev pub or_zero : Option ℕ → ℕ
or_zero none = 0
or_zero (some n) = n

-- `allocation + sourceFee`
abbrev pub required_of : List FeeAllocation → Source → ℕ
required_of allocations source = source.amount + or_zero (fee_of source.network allocations)

-- `required > confirmed ? required - confirmed : 0n`
abbrev pub deficit_of : ℕ → ℕ → ℕ
deficit_of required confirmed = if ltb confirmed required then required - confirmed else 0

-- One entry of `sources` in `GatewayFundingReadiness`; the amounts are texts.
pub record SourceReadiness : Type 0 where
  pub network : Network
  pub has_fee_headroom : Bool
  pub allocation : List ℕ
  pub fee_reserve : List ℕ
  pub required_confirmed : List ℕ
  pub confirmed : List ℕ
  pub deficit : List ℕ

pub record Readiness : Type 0 where
  pub intent_id : String
  pub ready : Bool
  pub required_confirmed_total : List ℕ
  pub confirmed_selected_total : List ℕ
  pub sources : List SourceReadiness

-- `formatUsdcBaseUnits(value)`
abbrev text_of : ℕ → Action Answer (List ℕ)
text_of value = require (format value) (other "RangeError")

unfoldable pub describe : List FeeAllocation → Source → ℕ → Action Answer SourceReadiness
describe allocations source confirmed = do
  allocation ← text_of source.amount
  fee ← text_of (or_zero (fee_of source.network allocations))
  required ← text_of (required_of allocations source)
  balance ← text_of confirmed
  deficit ← text_of (deficit_of (required_of allocations source) confirmed)
  pure (record {
    network = source.network;
    has_fee_headroom = ltb 0 (or_zero (fee_of source.network allocations));
    allocation = allocation;
    fee_reserve = fee;
    required_confirmed = required;
    confirmed = balance;
    deficit = deficit;
  })

-- `balances[index] ?? 0n` at the first index.
abbrev pub first_balance : List ℕ → ℕ
first_balance [] = 0
first_balance (balance ∷ _) = balance

abbrev pub next_balances : List ℕ → List ℕ
next_balances [] = []
next_balances (_ ∷ balances) = balances

-- `intent.sources.map(...)`, with the balance of the same index.
unfoldable pub describe_all :
    List FeeAllocation → List Source → List ℕ → Action Answer (List SourceReadiness)
describe_all allocations [] balances = pure []
describe_all allocations (source ∷ sources) balances =
    ◌>>=◌ (describe allocations source (first_balance balances)) (λ entry.
      ◌>>=◌ (describe_all allocations sources (next_balances balances))
        (λ entries. pure (entry ∷ entries)))

unfoldable pub sum_of : ℕ → List ℕ → ℕ
sum_of n [] = n
sum_of n (x ∷ xs) = sum_of (n + x) xs

-- `parseUsdcBaseUnits(deficit) === 0n`
abbrev pub is_zero_amount : Option ℕ → Bool
is_zero_amount none = false
is_zero_amount (some n) = n == 0

abbrev pub is_covered : SourceReadiness → Bool
is_covered entry = is_zero_amount (parse entry.deficit)

unfoldable pub summarise : IntentRow → List ℕ → Action Answer Readiness
unfolding sum_of
summarise intent balances = do
  entries ← describe_all intent.fee_allocations intent.sources balances
  required ← text_of (intent.gross_amount + intent.estimated_fee_reserve)
  confirmed ← text_of (sum_of 0 balances)
  pure (record {
    intent_id = intent.id;
    ready = all is_covered entries;
    required_confirmed_total = required;
    confirmed_selected_total = confirmed;
    sources = entries;
  })

module _ (env : Environment Answer) where
  unfoldable pub read_balances : String → List Source → Action Answer (List ℕ)
  read_balances wallet [] = pure []
  read_balances wallet (source ∷ sources) =
      ◌>>=◌ (perform env (gateway_balance source.network wallet))
        (λ balance. ◌>>=◌ (read_balances wallet sources) (λ balances. pure (balance ∷ balances)))

  unfoldable pub evaluate : IntentRow → Action Answer Readiness
  evaluate intent = do
    balances ← read_balances intent.wallet_address intent.sources
    summarise intent balances
