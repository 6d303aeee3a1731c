-- ===== src/Rewards/Service.antt =====
-- The methods of `RewardService`.
pub mod Verification
mod Tests
use bug_bounty_escrow.Prelude.{
  ℕ, ◌+◌, ◌-◌, ◌/◌, String, Bool, true, false, not, ◌&&◌, ◌||◌, Option, none, some, List, [], ◌∷◌,
  ltb, leb, ◌==◌, if◌then◌else◌, is_none, str_eq, eq_ignoring_case,
}
use Prim.Native.String.{◌++◌}
use bug_bounty_escrow.Effect.{
  forbidden, not_found, conflict, unprocessable, other, Environment, Action, pure, throw, ◌>>=◌,
  ◌>>◌, catch, throw_if, require, perform,
}
use bug_bounty_escrow.Access.{Role, Principal, same_role, researcher}
use bug_bounty_escrow.Pagination.{Pagination, pagination}
use bug_bounty_escrow.Rewards.{
  ChallengeRow, MessageTerms, NewChallenge, Completion, Query, Answer, list_rewards, get_wallet,
  update_wallet, list_wallets, random_uuid, random_nonce, now, create_challenge, find_challenge,
  find_wallet_by_address, recover_address, complete, find_wallet,
}

-- `getAddress` and `keccak256(stringToHex(text))` of `viem`, `Date.parse` and `toISOString`, and the
-- domain and the URI of the application: `getAddress` raises and `Date.parse` is not finite on a text
-- that is no address and no date.
pub record Primitives : Type 0 where
  pub checksum : String → Option String
  pub hash : String → String
  pub date_ms : String → Option ℕ
  pub iso : ℕ → String
  pub domain : String
  pub uri : String

unfoldable pub challenge_ttl_ms : ℕ
challenge_ttl_ms = 300000

abbrev pub chain_id : ℕ
chain_id = 5042002

abbrev pub purpose : String
purpose = "researcher_payout_wallet_verification"

abbrev join_lines : List String → String
join_lines [] = ""
join_lines (line ∷ []) = line
join_lines (line ∷ rest) = line ++ "\n" ++ join_lines rest

-- `buildResearcherPayoutWalletMessage`, with the checksum of the address.
unfoldable pub build_message : MessageTerms → String
build_message t = join_lines (
    (t.domain ++ " wants you to sign in with your Ethereum account:")
    ∷ t.address
    ∷ ""
    ∷ "Verify this wallet as an Arc USDC payout destination for BountyEscrow. This does not submit a transaction or grant token approval."
    ∷ ""
    ∷ ("URI: " ++ t.uri)
    ∷ "Version: 1"
    ∷ "Chain ID: 5042002"
    ∷ ("Nonce: " ++ t.nonce)
    ∷ ("Issued At: " ++ t.issued_at)
    ∷ ("Expiration Time: " ++ t.expires_at)
    ∷ ("Request ID: " ++ t.challenge_id)
    ∷ "Resources:"
    ∷ "- urn:bountyescrow:researcher-payout-wallet"
    ∷ [])

-- The expected message of a row, with the times of its issue and of its expiration.
unfoldable pub message_for : Primitives → ChallengeRow → ℕ → ℕ → String → String
message_for h row issued expires address = build_message (record {
  domain = h.domain;
  uri = h.uri;
  address = address;
  nonce = row.nonce;
  issued_at = h.iso issued;
  expires_at = h.iso expires;
  challenge_id = row.id;
})

-- The row is of this application, and its message is the expected one.
unfoldable pub is_genuine : Primitives → ChallengeRow → String → Bool
is_genuine h row message =
    row.chain_id == chain_id
    && (str_eq row.domain h.domain
        && (str_eq row.uri h.uri
            && (str_eq row.purpose purpose
                && (str_eq row.message message
                    && eq_ignoring_case row.message_hash (h.hash row.message)))))

abbrev matches : Option ℕ → Option ℕ → Option (ℕ × ℕ)
matches (some issued) (some expires) =
    if expires == issued + challenge_ttl_ms then some (issued, expires) else none
matches _ _ = none

module _ (env : Environment Answer) (h : Primitives) where
  -- `requireResearcher`
  unfoldable pub require_researcher : Principal → Action Answer (Unit {0})
  require_researcher principal =
      if same_role principal.role researcher then pure tt else throw forbidden

  -- `createPayoutWalletChallenge`: the identity of the stored challenge, and its message.
  unfoldable pub create_wallet_challenge : Principal → String → Action Answer (String × String)
  create_wallet_challenge principal address = do
    require_researcher principal
    challenge ← perform env random_uuid
    issued ← perform env now
    nonce ← perform env random_nonce
    account ← require (h.checksum address) (other "InvalidAddressError")
    let message = build_message (record {
      domain = h.domain;
      uri = h.uri;
      address = account;
      nonce = nonce;
      issued_at = h.iso issued;
      expires_at = h.iso (issued + challenge_ttl_ms);
      challenge_id = challenge;
    })
    id ← perform env (
        create_challenge (record {
          challenge_id = challenge;
          researcher_id = principal.user_id;
          address = address;
          domain = h.domain;
          uri = h.uri;
          purpose = purpose;
          nonce = nonce;
          message = message;
          message_hash = h.hash message;
          issued_at = h.iso issued;
          expires_at = h.iso (issued + challenge_ttl_ms);
        }))
    pure (id, message)

  -- The challenge of the researcher.
  unfoldable pub own_challenge : String → String → Action Answer ChallengeRow
  own_challenge user_id id = do
    found ← perform env (find_challenge id)
    row ← require found not_found
    throw_if (not (str_eq row.researcher_id user_id)) not_found
    pure row

  -- A challenge that was used: its wallet, if it is there.
  unfoldable pub reuse : String → ChallengeRow → Action Answer String
  reuse user_id row = do
    existing ← perform env (find_wallet_by_address user_id row.address)
    require existing (conflict "wallet_verification_challenge_consumed")

  -- The checks of an unused challenge.
  unfoldable pub check_challenge : ChallengeRow → Action Answer (Unit {0})
  check_challenge row = do
    throw_if (not (is_none row.invalidated_at))
        (conflict "wallet_verification_challenge_invalidated")
    times ←
        require (matches (h.date_ms row.issued_at) (h.date_ms row.expires_at))
          (conflict "wallet_verification_challenge_mismatch")
    time ← perform env now
    throw_if (leb times.1 time) (conflict "wallet_verification_challenge_expired")
    account ← require (h.checksum row.address) (other "InvalidAddressError")
    throw_if (not (is_genuine h row (message_for h row times.0 times.1 account)))
        (conflict "wallet_verification_challenge_mismatch")

  -- The account that signed the message.
  unfoldable pub recovered : ChallengeRow → String → Action Answer String
  recovered row signature = do
    address ←
        catch (perform env (recover_address row.message signature))
          (λ e. throw (unprocessable "wallet_signature_invalid"))
    throw_if (not (eq_ignoring_case address row.address)) (unprocessable "wallet_signature_invalid")
    pure address

  unfoldable pub complete_with :
      String → String → Option String → ChallengeRow → String → Action Answer String
  complete_with user_id id label row address = do
    wallet_id ← perform env (
        complete (record {
          researcher_id = user_id;
          challenge_id = id;
          verified_address = address;
          verified_message_hash = h.hash row.message;
          label = label;
        }))
    wallet ← perform env (find_wallet user_id wallet_id)
    require wallet (other "The verified payout wallet could not be reloaded")

  -- `verifyPayoutWallet`, from the challenge on.
  unfoldable pub verify_challenge :
      String → String → String → Option String → ChallengeRow → Action Answer String
  verify_challenge user_id id signature label row =
      if is_none row.consumed_at
      then (do
        check_challenge row
        address ← recovered row signature
        complete_with user_id id label row address)
      else reuse user_id row

  -- `verifyPayoutWallet`
  unfoldable pub verify_wallet : Principal → String → String → Option String → Action Answer String
  verify_wallet principal id signature label = do
    require_researcher principal
    row ← own_challenge principal.user_id id
    verify_challenge principal.user_id id signature label row

  -- `list`, `getPayoutWallet`, `updatePayoutWallet`, `listPayoutWallets`
  unfoldable pub list : Principal → Query → Action Answer (List String × Pagination)
  list principal query = do
    require_researcher principal
    found ← perform env (list_rewards principal.user_id query)
    pure (found.0, pagination query.page query.limit found.1)

  unfoldable pub get_payout_wallet : Principal → Action Answer String
  get_payout_wallet principal = do
    require_researcher principal
    perform env (get_wallet principal.user_id)

  unfoldable pub update_payout_wallet : Principal → String → Bool → Action Answer String
  update_payout_wallet principal address confirmed = do
    require_researcher principal
    perform env (update_wallet principal.user_id address confirmed)

  unfoldable pub list_payout_wallets : Principal → Action Answer (List String)
  list_payout_wallets principal = do
    require_researcher principal
    perform env (list_wallets principal.user_id)
