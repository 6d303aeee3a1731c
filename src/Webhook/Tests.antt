-- ===== src/Webhook/Tests.antt =====
-- A signed deposit in a scripted world, and the theorems at it.
use bug_bounty_escrow.Prelude.{String, true, some, [], ◌∷◌, ◌≡◌, refl, arith, codes}
use bug_bounty_escrow.Effect.{returned, fresh, Environment}
use bug_bounty_escrow.Subscription.Service.{Config}
use bug_bounty_escrow.Webhook.{
  Answer, now, fetch_key, found, deposit, Caches, Provider, gateway, verify, is_key_id, fits,
  is_base64,
}
use bug_bounty_escrow.Webhook.Signatures.{IsSigned, gateway-IsSigned}
use bug_bounty_escrow.Webhook.Bounds.{LeavesBounded, verify-IsBounded}

abbrev key_id : String
key_id = "0A000000-0000-4000-8000-00000000000f"

abbrev provider : Provider
provider = record {
  has_api_key = true;
  import_key = λ text. some text;
  verifies = λ raw key signature. true;
}

abbrev config : Config
config = record { enabled = true; subscription_ids = []; request_timeout_ms = 10000 }

abbrev caches : Caches
caches = record {
  keys = ("other", record { key = "k"; expires_at = 500 }) ∷ [];
  unknown_keys = [];
  window_started_at = 0;
  lookups = 16;
}

abbrev world : Environment Answer
world n now = returned 70000
world n (fetch_key _) = returned (
    found (record {
      id = some "0A000000-0000-4000-8000-00000000000f";
      algorithm = some "ECDSA_SHA_256";
      public_key = some "key";
    }))
world n _ = returned tt

key_id_fits : is_key_id key_id ≡ true
unfolding is_key_id fits
key_id_fits = refl

signature_fits : is_base64 (codes "MEUC/9+=") ≡ true
unfolding is_base64
signature_fits = refl

gateway-IsSigned_example :
    IsSigned provider config
      (some "raw")
      (some key_id)
      (some "MEUC/9+=")
      caches.keys
      (gateway world provider config
        (some "raw")
        (deposit "payload")
        (some key_id)
        (some "MEUC/9+=")
        caches
        (fresh Answer)).1.calls
gateway-IsSigned_example =
    gateway-IsSigned world provider config (some "raw") (deposit "payload") (some key_id)
      (some "MEUC/9+=") caches (fresh Answer) tt

verify-IsBounded_example :
    LeavesBounded
      (verify world provider "raw" (some key_id) (some "MEUC/9+=") caches (fresh Answer)).0
verify-IsBounded_example =
    verify-IsBounded world provider "raw" (some key_id) (some "MEUC/9+=") caches (fresh Answer)
      (omega arith, (omega arith, omega arith))
