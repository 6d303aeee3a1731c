-- ===== src/Subscription/Client/Tests.antt =====
-- A reconciliation in a scripted world, and the theorem at it.
use bug_bounty_escrow.Prelude.{zero, true, none, some, [], ◌∷◌, ◌≡◌, refl, codes}
use bug_bounty_escrow.Effect.{returned, fresh, Environment}
use bug_bounty_escrow.Ai.{Text}
use bug_bounty_escrow.Subscription.Client.{
  Registered, failed, answered, Answer, fetch, jitter, sleep, Setup, address_set, domain_set,
  insert_domain, reconcile,
}
use bug_bounty_escrow.Subscription.Client.Verification.{IsReconciled, reconcile-IsReconciled}

abbrev id : Text
id = codes "a1"

abbrev wallet : Text
wallet = codes "0x00000000000000000000000000000000000000AB"

abbrev setup : Setup
setup = record {
  subscription_ids = id ∷ [];
  endpoint = "https://app/api/webhooks/circle/gateway";
  has_api_key = true;
  request_timeout_ms = 10000;
}

abbrev registered : Registered
registered = record {
  id = codes "A1";
  endpoint = "https://app/api/webhooks/circle/gateway";
  enabled = true;
  notification_types = "gateway.deposit.finalized" ∷ [];
  addresses = codes "0x00000000000000000000000000000000000000ab" ∷ [];
  domains = 26 ∷ 0 ∷ [];
}

-- The provider does not respond to the first request.
abbrev world : Environment Answer
world zero (fetch _) = returned failed
world n (fetch _) = returned (answered 200 none (some registered) none)
world n jitter = returned 7
world n (sleep _) = returned tt

domains_sorted : domain_set (26 ∷ 0 ∷ 26 ∷ []) ≡ 0 ∷ 26 ∷ []
unfolding domain_set insert_domain
domains_sorted = refl

reconcile-IsReconciled_example :
    IsReconciled setup id
      (address_set (wallet ∷ []))
      (domain_set (0 ∷ 26 ∷ []))
      (reconcile world setup id (wallet ∷ []) (0 ∷ 26 ∷ []) (fresh Answer)).0
      (reconcile world setup id (wallet ∷ []) (0 ∷ 26 ∷ []) (fresh Answer)).1.calls
reconcile-IsReconciled_example =
    reconcile-IsReconciled world setup id (wallet ∷ []) (0 ∷ 26 ∷ []) (fresh Answer) tt
