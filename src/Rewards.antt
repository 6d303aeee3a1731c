-- ===== src/Rewards.antt =====
-- Rewards of researchers and their payout wallets, `RewardService`
-- (apps/api/src/rewards/reward.service.ts): rows, answers and calls. Times are milliseconds since the
-- epoch; the time of a row is a text. What the service only passes on is a text.
pub mod Service
use bug_bounty_escrow.Prelude.{ℕ, String, Bool, Option, List}

-- `ResearcherWalletChallengeRow`, less the time of its creation.
pub record ChallengeRow : Type 0 where
  pub id : String
  pub researcher_id : String
  pub address : String
  pub chain_id : ℕ
  pub domain : String
  pub uri : String
  pub purpose : String
  pub nonce : String
  pub message : String
  pub message_hash : String
  pub issued_at : String
  pub expires_at : String
  pub consumed_at : Option String
  pub invalidated_at : Option String

-- The input of `buildResearcherPayoutWalletMessage`.
pub record MessageTerms : Type 0 where
  pub domain : String
  pub uri : String
  pub address : String
  pub nonce : String
  pub issued_at : String
  pub expires_at : String
  pub challenge_id : String

-- What `createPayoutWalletChallenge` of the repository is given.
pub record NewChallenge : Type 0 where
  pub challenge_id : String
  pub researcher_id : String
  pub address : String
  pub domain : String
  pub uri : String
  pub purpose : String
  pub nonce : String
  pub message : String
  pub message_hash : String
  pub issued_at : String
  pub expires_at : String

-- What `completePayoutWalletVerification` is given.
pub record Completion : Type 0 where
  pub researcher_id : String
  pub challenge_id : String
  pub verified_address : String
  pub verified_message_hash : String
  pub label : Option String

pub record Query : Type 0 where
  pub page : ℕ
  pub limit : ℕ
  pub status : Option String

pub data Op : Type 0 where
  list_rewards : String → Query → Op
  get_wallet : String → Op
  update_wallet : String → String → Bool → Op
  list_wallets : String → Op
  random_uuid : Op
  random_nonce : Op
  now : Op
  create_challenge : NewChallenge → Op
  find_challenge : String → Op
  find_wallet_by_address : String → String → Op
  recover_address : String → String → Op
  complete : Completion → Op
  find_wallet : String → String → Op

-- The rewards of a page with their number; a wallet.
abbrev pub Answer : Op → Type 0
Answer (list_rewards _ _) = List String × ℕ
Answer (get_wallet _) = String
Answer (update_wallet _ _ _) = String
Answer (list_wallets _) = List String
Answer random_uuid = String
Answer random_nonce = String
Answer now = ℕ
Answer (create_challenge _) = String
Answer (find_challenge _) = Option ChallengeRow
Answer (find_wallet_by_address _ _) = Option String
Answer (recover_address _ _) = String
Answer (complete _) = String
Answer (find_wallet _ _) = Option String
