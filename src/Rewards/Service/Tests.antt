-- ===== src/Rewards/Service/Tests.antt =====
-- The verification of a payout wallet in a scripted world, and the theorem at it.
use bug_bounty_escrow.Prelude.{String, none, some, [], str_eq, if◌then◌else◌}
use bug_bounty_escrow.Effect.{returned, fresh, Environment}
use bug_bounty_escrow.Access.{Principal, researcher}
use bug_bounty_escrow.Rewards.{
  ChallengeRow, Answer, list_rewards, get_wallet, update_wallet, list_wallets, random_uuid,
  random_nonce, now, create_challenge, find_challenge, find_wallet_by_address, recover_address,
  complete, find_wallet,
}
use bug_bounty_escrow.Rewards.Service.{Primitives, chain_id, purpose, build_message, verify_wallet}
use bug_bounty_escrow.Rewards.Service.Verification.{IsAuthentic, verify_wallet-IsAuthentic}

abbrev primitives : Primitives
primitives = record {
  checksum = λ address. some address;
  hash = λ text. text;
  date_ms = λ text. if str_eq text "12:00" then some 1000000 else some 1300000;
  iso = λ time. "iso";
  domain = "app";
  uri = "https://app/rewards/wallets";
}

abbrev message : String
message = build_message (record {
  domain = "app";
  uri = "https://app/rewards/wallets";
  address = "0x0a";
  nonce = "nonce";
  issued_at = "iso";
  expires_at = "iso";
  challenge_id = "challenge";
})

abbrev challenge : ChallengeRow
challenge = record {
  id = "challenge";
  researcher_id = "rick";
  address = "0x0a";
  chain_id = chain_id;
  domain = "app";
  uri = "https://app/rewards/wallets";
  purpose = purpose;
  nonce = "nonce";
  message = message;
  message_hash = message;
  issued_at = "12:00";
  expires_at = "12:05";
  consumed_at = none;
  invalidated_at = none;
}

abbrev world : Environment Answer
world n (list_rewards _ _) = returned ([], 0)
world n (get_wallet _) = returned "wallet"
world n (update_wallet _ _ _) = returned "wallet"
world n (list_wallets _) = returned []
world n random_uuid = returned "challenge"
world n random_nonce = returned "nonce"
world n now = returned 1200000
world n (create_challenge _) = returned "challenge"
world n (find_challenge _) = returned (some challenge)
world n (find_wallet_by_address _ _) = returned none
world n (recover_address _ _) = returned "0x0A"
world n (complete _) = returned "wallet"
world n (find_wallet _ _) = returned (some "wallet")

abbrev rick : Principal
rick = record { user_id = "rick"; role = researcher }

verify_wallet-IsAuthentic_example :
    IsAuthentic primitives
      (verify_wallet world primitives rick "challenge" "signature" none (fresh Answer)).1.calls
verify_wallet-IsAuthentic_example =
    verify_wallet-IsAuthentic world primitives rick "challenge" "signature" none (fresh Answer) tt
