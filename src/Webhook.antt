-- ===== src/Webhook.antt =====
-- The webhook of the payment provider: CircleGatewayWebhookVerifier
-- (apps/api/src/escrow/circle-gateway-webhook.verifier.ts) with its caches, and
-- CircleGatewayWebhookController (circle-gateway-webhook.controller.ts). A `Map` is an association list
-- in the order of insertion; `createPublicKey`, `createVerify` and the schemas are outside.
pub mod Bounds
pub mod Signatures
mod Tests
use bug_bounty_escrow.Prelude.{
  ℕ, suc, ◌+◌, ◌-◌, String, Bool, true, false, not, ◌&&◌, ◌||◌, Option, none, some, List, [], ◌∷◌,
  ◌++◌, length, is_none, ltb, leb, ◌==◌, if◌then◌else◌, str_eq, codes, lower,
}
use bug_bounty_escrow.Effect.{
  unauthorized, unavailable, other, Outcome, returned, raised, Environment, Action, pure, throw,
  ◌>>=◌, ◌>>◌, catch, throw_if, perform,
}
use bug_bounty_escrow.Ai.{Text}
use bug_bounty_escrow.Subscription.Service.{Config, is_allowlisted}

-- `CirclePublicKeyResponse`
pub record KeyBody : Type 0 where
  pub id : Option String
  pub algorithm : Option String
  pub public_key : Option String

-- What the lookup of a key gives: no response, another status than a successful one, a body that is no
-- JSON, or a body.
pub data Lookup : Type 0 where
  unreachable garbled : Lookup
  refused : ℕ → Lookup
  found : KeyBody → Lookup

-- The body of a request, by the schema that it fits first.
pub data Body : Type 0 where
  test : Text → Text → Body
  deposit : String → Body
  unread : Body

pub data Op : Type 0 where
  now : Op
  fetch_key : String → Op
  record_test : Text → Text → Op
  ingest : String → Op

abbrev pub Answer : Op → Type 0
Answer now = ℕ
Answer (fetch_key _) = Lookup
Answer _ = Unit {0}

abbrev pub Entries : Type 0 → Type 0
Entries V = List (String × V)

-- `CachedKey`
pub record Cached : Type 0 where
  pub key : String
  pub expires_at : ℕ

-- The fields of the verifier.
pub record Caches : Type 0 where
  pub keys : Entries Cached
  pub unknown_keys : Entries ℕ
  pub window_started_at : ℕ
  pub lookups : ℕ

-- Whether there is an API key; `createPublicKey`, and `verify` for a body, a key and a signature.
pub record Provider : Type 0 where
  pub has_api_key : Bool
  pub import_key : String → Option String
  pub verifies : String → String → String → Bool

module _ {V : Type 0} where
  unfoldable pub lookup : String → Entries V → Option V
  lookup id [] = none
  lookup id ((k, v) ∷ rest) = if str_eq k id then some v else lookup id rest

  unfoldable pub delete : String → Entries V → Entries V
  delete id [] = []
  delete id ((k, v) ∷ rest) =
      let deeper = delete id rest in if str_eq k id then deeper else (k, v) ∷ deeper

  -- `while (cache.size > MAX_CACHE_ENTRIES)`: the oldest entries go.
  unfoldable pub drop_oldest : Entries V → Entries V
  drop_oldest [] = []
  drop_oldest (entry ∷ rest) =
      let less = drop_oldest rest in if ltb 128 (length (entry ∷ rest)) then less else entry ∷ rest

  -- `setBounded`
  unfoldable pub set_bounded : String → V → Entries V → Entries V
  set_bounded id v entries = drop_oldest (delete id entries ++ (id, v) ∷ [])

  unfoldable pub drop_expired : (V → ℕ) → ℕ → Entries V → Entries V
  drop_expired expiry time [] = []
  drop_expired expiry time ((k, v) ∷ rest) =
      let kept = drop_expired expiry time rest in
      if leb (expiry v) time then kept else (k, v) ∷ kept

-- `pruneCaches`
unfoldable pub prune_caches : ℕ → Caches → Caches
prune_caches time c = record {
  keys = drop_expired (λ cached. cached.expires_at) time c.keys;
  unknown_keys = drop_expired (λ expires. expires) time c.unknown_keys;
  window_started_at = c.window_started_at;
  lookups = c.lookups;
}

-- The start of `consumeUnknownKeyLookupBudget`.
unfoldable pub new_window : ℕ → Caches → Caches
new_window time c =
    if leb 60000 (time - c.window_started_at)
    then record {
      keys = c.keys;
      unknown_keys = c.unknown_keys;
      window_started_at = time;
      lookups = 0;
    }
    else c

abbrev pub max_lookups : ℕ
max_lookups = 16

abbrev pub count_lookup : Caches → Caches
count_lookup c = record {
  keys = c.keys;
  unknown_keys = c.unknown_keys;
  window_started_at = c.window_started_at;
  lookups = suc c.lookups;
}

abbrev forget_unknown : String → Caches → Caches
forget_unknown id c = record {
  keys = c.keys;
  unknown_keys = delete id c.unknown_keys;
  window_started_at = c.window_started_at;
  lookups = c.lookups;
}

unfoldable pub remember_unknown : String → ℕ → Caches → Caches
remember_unknown id expires c = record {
  keys = c.keys;
  unknown_keys = set_bounded id expires c.unknown_keys;
  window_started_at = c.window_started_at;
  lookups = c.lookups;
}

unfoldable pub remember_key : String → String → ℕ → Caches → Caches
remember_key id key expires c = record {
  keys = set_bounded id (record { key = key; expires_at = expires }) c.keys;
  unknown_keys = c.unknown_keys;
  window_started_at = c.window_started_at;
  lookups = c.lookups;
}

abbrev is_text : Option String → String → Bool
is_text none t = false
is_text (some s) t = str_eq s t

abbrev import_of : Provider → Option String → Option String
import_of p none = none
import_of p (some text) = p.import_key text

-- The key of a body, if it is one for this identity.
unfoldable pub accepted_key : Provider → String → KeyBody → Option String
accepted_key p id b =
    if is_text b.id id && is_text b.algorithm "ECDSA_SHA_256"
    then import_of p b.public_key
    else none

-- A character of the pattern of an identity: a hexadecimal digit, the version, the variant, a dash.
abbrev fits_class : ℕ → ℕ → Bool
fits_class p c =
    if p == b'h'
    then (leb b'0' c && leb c b'9') || (leb b'a' c && leb c b'f')
    else (if p == b'v'
        then leb b'1' c && leb c b'8'
        else (if p == b'r' then c == b'8' || (c == b'9' || (c == b'a' || c == b'b')) else p == c))

unfoldable pub fits : Text → Text → Bool
fits [] [] = true
fits (p ∷ ps) (c ∷ t) = fits_class p c && fits ps t
fits _ _ = false

-- The test of `keyId`, which ignores case.
unfoldable pub is_key_id : String → Bool
is_key_id id = fits (codes "hhhhhhhh-hhhh-vhhh-rhhh-hhhhhhhhhhhh") (lower id)

abbrev is_base64_code : ℕ → Bool
is_base64_code c =
    (leb b'A' c && leb c b'Z')
    || ((leb b'a' c && leb c b'z') || ((leb b'0' c && leb c b'9') || (c == b'+' || c == b'/')))

abbrev is_padding : Text → Bool
is_padding [] = true
is_padding (c ∷ []) = c == b'='
is_padding (c ∷ e ∷ []) = c == b'=' && e == b'='
is_padding _ = false

-- `/^[A-Za-z0-9+/]+={0,2}$/`
unfoldable pub is_base64 : Text → Bool
is_base64 [] = false
is_base64 (c ∷ t) = is_base64_code c && (is_padding t || is_base64 t)

-- What a part of the verifier comes to, with the caches that it leaves: an exception keeps them.
abbrev pub Verified : Type 0 → Type 0
Verified A = Outcome A × Caches

module _ (env : Environment Answer) (p : Provider) where
  -- A key that was found.
  unfoldable pub keep_key : String → Caches → Option String → Action Answer (Verified String)
  keep_key id c none = pure (raised unauthorized, c)
  keep_key id c (some key) = do
    time ← perform env now
    pure (returned key, remember_key id key (time + 600000) c)

  -- From the response on.
  unfoldable pub read_lookup : String → Caches → Lookup → Action Answer (Verified String)
  read_lookup id c Lookup.unreachable =
      pure (raised (unavailable "circle_webhook_key_lookup_failed"), c)
  read_lookup id c Lookup.garbled = pure (raised (other "SyntaxError"), c)
  read_lookup id c (refused status) =
      if status == 400 || status == 404
      then (do
        time ← perform env now
        pure (raised unauthorized, remember_unknown id (time + 60000) c))
      else pure (raised (unavailable "circle_webhook_key_lookup_failed"), c)
  read_lookup id c (found b) = keep_key id c (accepted_key p id b)

  unfoldable pub fetch_for : String → Caches → Action Answer (Verified String)
  fetch_for id c = do
    answer ← catch (perform env (fetch_key id)) (λ _. pure Lookup.unreachable)
    read_lookup id c answer

  -- `consumeUnknownKeyLookupBudget`, and the lookup.
  unfoldable pub spend : String → Caches → Action Answer (Verified String)
  spend id c =
      if leb max_lookups c.lookups
      then pure (raised (unavailable "circle_webhook_key_lookup_budget_exhausted"), c)
      else fetch_for id (count_lookup c)

  unfoldable pub look_up : String → Caches → Action Answer (Verified String)
  look_up id c =
      if p.has_api_key
      then (do time ← perform env now; spend id (new_window time c))
      else pure (raised (unavailable "circle_webhook_key_lookup_unconfigured"), c)

  -- A key that is not cached.
  unfoldable pub unless_unknown : String → Caches → Option ℕ → Action Answer (Verified String)
  unless_unknown id c none = look_up id c
  unless_unknown id c (some expires) = do
    time ← perform env now
    if ltb time expires then pure (raised unauthorized, c) else look_up id (forget_unknown id c)

  unfoldable pub unless_cached : String → Caches → Option Cached → Action Answer (Verified String)
  unless_cached id c (some cached) = pure (returned cached.key, c)
  unless_cached id c none = unless_unknown id c (lookup id c.unknown_keys)

  -- `getKey`
  unfoldable pub get_key : String → Caches → Action Answer (Verified String)
  get_key id c = do
    time ← perform env now
    let pruned = prune_caches time c
    unless_cached id pruned (lookup id pruned.keys)

  unfoldable pub check_signature :
      String → String → Verified String → Action Answer (Verified (Unit {0}))
  check_signature raw signature (raised e, c) = pure (raised e, c)
  check_signature raw signature (returned key, c) =
      if p.verifies raw key signature then pure (returned tt, c) else pure (raised unauthorized, c)

  -- `verify`
  unfoldable pub verify :
      String → Option String → Option String → Caches → Action Answer (Verified (Unit {0}))
  verify raw (some id) (some signature) c =
      if is_key_id id && is_base64 (codes signature)
      then (◌>>=◌ (get_key id c) (check_signature raw signature))
      else pure (raised unauthorized, c)
  verify raw _ _ c = pure (raised unauthorized, c)

  -- A call of a service, which leaves the caches as they are.
  abbrev call : (o : Op) → Caches → Action Answer (Verified (Answer o))
  call o c s = (returned ((perform env o s).0, c), (perform env o s).1)

  -- The request after its signature.
  unfoldable pub accept : Config → Body → Caches → Action Answer (Verified (Unit {0}))
  accept cfg (test subscription notification) c =
      if cfg.enabled && is_allowlisted cfg subscription
      then call (record_test subscription notification) c
      else pure (returned tt, c)
  accept cfg (deposit payload) c =
      if cfg.enabled
      then call (ingest payload) c
      else pure (raised (unavailable "circle_gateway_webhooks_disabled"), c)
  accept cfg unread c =
      if cfg.enabled
      then pure (raised (other "circle_webhook_payload_invalid"), c)
      else pure (raised (unavailable "circle_gateway_webhooks_disabled"), c)

  unfoldable pub go_on : Config → Body → Verified (Unit {0}) → Action Answer (Verified (Unit {0}))
  go_on cfg body (raised e, c) = pure (raised e, c)
  go_on cfg body (returned _, c) = accept cfg body c

  -- `gateway`, with the raw body of the request.
  unfoldable pub gateway :
      Config
      → Option String
      → Body
      → Option String
      → Option String
      → Caches
      → Action Answer (Verified (Unit {0}))
  gateway cfg none body id signature c = pure (raised (other "circle_webhook_raw_body_missing"), c)
  gateway cfg (some raw) body id signature c = ◌>>=◌ (verify raw id signature c) (go_on cfg body)
