-- ===== src/Webhook/Signatures.antt =====
-- What the webhook does only with a signature.
use bug_bounty_escrow.Prelude.{
  ℕ, String, Bool, true, false, ◌&&◌, Option, none, some, List, [], ◌∷◌, ◌≡◌, refl, ap, sym, ◌⊎◌,
  inl, arith, if◌then◌else◌, str_eq_iff, leb, ltb, codes,
}
use bug_bounty_escrow.Effect.{
  unauthorized, unavailable, Failure, returned, raised, Event, did, Session, Environment, Action,
  pure, catch, perform, ◌>>=◌,
}
use bug_bounty_escrow.Effect.Triples.{Triple, Triple-bind, Triple-either}
use bug_bounty_escrow.Subscription.Service.{Config, is_allowlisted}
use bug_bounty_escrow.Webhook.{
  Lookup, refused, found, Body, test, deposit, unread, Answer, now, fetch_key, record_test, ingest,
  Entries, Cached, Caches, Provider, lookup, drop_expired, prune_caches, new_window, max_lookups,
  count_lookup, forget_unknown, accepted_key, is_key_id, is_base64, Verified, keep_key, read_lookup,
  fetch_for, spend, look_up, unless_unknown, unless_cached, get_key, check_signature, verify,
  accept, go_on, gateway, call,
}

-- The key is cached for this identity.
abbrev pub HasKey : String → String → Entries Cached → Type 0
HasKey id key [] = ⊥
HasKey id key ((k, v) ∷ rest) = ((k ≡ id) × (v.key ≡ key)) ⊎ HasKey id key rest

-- The provider gave the key for this identity.
abbrev pub IsGiven : Provider → String → String → List (Event Answer) → Type 0
IsGiven p id key [] = ⊥
IsGiven p id key (did (fetch_key i) (returned (found b)) ∷ calls) =
    ((i ≡ id) × (accepted_key p id b ≡ some key)) ⊎ IsGiven p id key calls
IsGiven p id key (did _ _ ∷ calls) = IsGiven p id key calls

abbrev pub IsTrusted : Provider → String → String → Entries Cached → List (Event Answer) → Type 0
IsTrusted p id key keys calls = HasKey id key keys ⊎ IsGiven p id key calls

-- The body is signed with a key that is trusted for the identity of the request.
abbrev pub SignedBy :
    Provider
    → Option String
    → Option String
    → Option String
    → Entries Cached
    → List (Event Answer)
    → Type 0
SignedBy p (some raw) (some id) (some signature) keys calls =
    (key : String) × ((p.verifies raw key signature ≡ true) × IsTrusted p id key keys calls)
SignedBy p _ _ _ keys calls = ⊥

-- What was recorded and ingested was signed.
abbrev pub IsSigned :
    Provider
    → Config
    → Option String
    → Option String
    → Option String
    → Entries Cached
    → List (Event Answer)
    → Type 0
IsSigned p cfg raw id signature keys [] = Unit
IsSigned p cfg raw id signature keys (did (record_test sub _) _ ∷ calls) =
    ((cfg.enabled ≡ true) × (is_allowlisted cfg sub ≡ true))
    × (SignedBy p raw id signature keys calls × IsSigned p cfg raw id signature keys calls)
IsSigned p cfg raw id signature keys (did (ingest _) _ ∷ calls) =
    (cfg.enabled ≡ true)
    × (SignedBy p raw id signature keys calls × IsSigned p cfg raw id signature keys calls)
IsSigned p cfg raw id signature keys (did _ _ ∷ calls) = IsSigned p cfg raw id signature keys calls

lookup-HasKey :
    (id : String) (cached : Cached) (keys : Entries Cached)
    → lookup id keys ≡ some cached
    → HasKey id cached.key keys
unfolding lookup
lookup-HasKey id cached [] e = ground arith
lookup-HasKey id cached ((k, v) ∷ rest) e =
    ground (arith, lookup-HasKey id cached rest, str_eq_iff k id)

HasKey-drop_expired :
    (id key : String) (time : ℕ) (keys : Entries Cached)
    → HasKey id key (drop_expired (λ cached. cached.expires_at) time keys)
    → HasKey id key keys
unfolding drop_expired
HasKey-drop_expired id key time [] h = h
HasKey-drop_expired id key time ((k, v) ∷ rest) h =
    ground (arith, HasKey-drop_expired id key time rest)

module _ (env : Environment Answer) (p : Provider) (cfg : Config) (raw id signature : String)
    (keys : Entries Cached) where
  abbrev Safe : Session Answer → Type 0
  Safe s = IsSigned p cfg (some raw) (some id) (some signature) keys s.calls

  -- A key comes back only if it is trusted.
  abbrev Known : Verified String → Session Answer → Type 0
  Known (raised e, c) s = Safe s
  Known (returned key, c) s = IsTrusted p id key keys s.calls × Safe s

  -- The keys that are still cached are those that were.
  abbrev Given : Option String → Session Answer → Type 0
  Given none s = Safe s
  Given (some key) s = IsGiven p id key s.calls × Safe s

  keep_key-Known :
      (c : Caches) (key : Option String) → Triple (Given key) (keep_key env p id c key) Known Safe
  unfolding keep_key
  keep_key-Known c none = record { at = λ s z. ground arith }
  keep_key-Known c (some key) = record { at = λ s z. ground arith }

  abbrev Heard : Lookup → Session Answer → Type 0
  Heard (found b) s = Given (accepted_key p id b) s
  Heard _ s = Safe s

  read_lookup-Known :
      (c : Caches) (answer : Lookup)
      → Triple (Heard answer) (read_lookup env p id c answer) Known Safe
  unfolding read_lookup
  read_lookup-Known c Lookup.unreachable = record { at = λ s z. z }
  read_lookup-Known c Lookup.garbled = record { at = λ s z. z }
  read_lookup-Known c (refused status) = record { at = λ s z. ground arith }
  read_lookup-Known c (found b) = keep_key-Known c (accepted_key p id b)

  fetch-Heard :
      Triple Safe (catch (perform env (fetch_key id)) (λ _. pure Lookup.unreachable)) Heard Safe
  fetch-Heard = record { at = λ s z. ground arith }

  fetch_for-Known : (c : Caches) → Triple Safe (fetch_for env p id c) Known Safe
  unfolding fetch_for
  fetch_for-Known c = Triple-bind Heard fetch-Heard (read_lookup-Known c)

  now-Safe : Triple Safe (perform env now) (λ _. Safe) Safe
  now-Safe = record { at = λ s z. ground arith }

  refused_with : (c : Caches) (e : Failure) → Triple Safe (pure (raised e, c)) Known Safe
  refused_with c e = record { at = λ s z. z }

  either :
      (b : Bool) {m k : Action Answer (Verified String)}
      → Triple Safe m Known Safe
      → Triple Safe k Known Safe
      → Triple Safe (if b then m else k) Known Safe
  either true t u = t
  either false t u = u

  look_up-Known : (c : Caches) → Triple Safe (look_up env p id c) Known Safe
  unfolding look_up spend
  look_up-Known c =
      either p.has_api_key
        (Triple-bind (λ _. Safe) now-Safe
          (λ time.
            either (leb max_lookups (new_window time c).lookups) (refused_with _ _)
              (fetch_for-Known (count_lookup (new_window time c)))))
        (refused_with c _)

  unless_unknown-Known :
      (c : Caches) (expires : Option ℕ) → Triple Safe (unless_unknown env p id c expires) Known Safe
  unfolding unless_unknown
  unless_unknown-Known c none = look_up-Known c
  unless_unknown-Known c (some expires) =
      Triple-bind (λ _. Safe) now-Safe
        (λ time.
          either (ltb time expires) (refused_with c unauthorized)
            (look_up-Known (forget_unknown id c)))

  -- A cached key.
  abbrev Has : Option Cached → Type 0
  Has none = Unit
  Has (some cached) = HasKey id cached.key keys

  unless_cached-Known :
      (c : Caches) (cached : Option Cached)
      → Has cached
      → Triple Safe (unless_cached env p id c cached) Known Safe
  unfolding unless_cached
  unless_cached-Known c none h = unless_unknown-Known c (lookup id c.unknown_keys)
  unless_cached-Known c (some cached) h = record { at = λ s z. (inl h, z) }

  pruned-Has :
      (time : ℕ) (found : Option Cached)
      → lookup id (drop_expired (λ cached. cached.expires_at) time keys) ≡ found
      → Has found
  pruned-Has time none e = tt
  pruned-Has time (some cached) e =
      HasKey-drop_expired id cached.key time keys
        (lookup-HasKey id cached (drop_expired (λ v. v.expires_at) time keys) e)

  get_key-Known : (c : Caches) → c.keys ≡ keys → Triple Safe (get_key env p id c) Known Safe
  unfolding get_key prune_caches
  get_key-Known c e =
      Triple-bind (λ _. Safe) now-Safe
        (λ time. unless_cached-Known (prune_caches time c) (lookup id (prune_caches time c).keys) (
          pruned-Has time _
            (ap (λ l. lookup id (drop_expired (λ v. v.expires_at) time l)) (sym e))))

  -- The signature is checked.
  abbrev Checked : Verified (Unit {0}) → Session Answer → Type 0
  Checked (raised e, c) s = Safe s
  Checked (returned _, c) s = SignedBy p (some raw) (some id) (some signature) keys s.calls × Safe s

  check-Checked :
      (v : Verified String) → Triple (Known v) (check_signature env p raw signature v) Checked Safe
  unfolding check_signature
  check-Checked (raised e, c) = record { at = λ s z. z }
  check-Checked (returned key, c) = split (p.verifies raw key signature) refl
    where
      split :
          (b : Bool)
          → p.verifies raw key signature ≡ b
          → Triple
              (Known (returned key, c))
              (if b then pure (returned tt, c) else pure (raised unauthorized, c))
              Checked
              Safe
      split true e = record { at = λ s z. ((key, (e, z.0)), z.1) }
      split false e = record { at = λ s z. z.1 }

  verify-Checked :
      (c : Caches)
      → c.keys ≡ keys
      → Triple Safe (verify env p raw (some id) (some signature) c) Checked Safe
  unfolding verify
  verify-Checked c e = split (is_key_id id && is_base64 (codes signature))
    where
      split :
          (b : Bool)
          → Triple Safe
              (if b
                then (◌>>=◌ (get_key env p id c) (check_signature env p raw signature))
                else pure (raised unauthorized, c))
              Checked
              Safe
      split true = Triple-bind Known (get_key-Known c e) check-Checked
      split false = record { at = λ s z. z }

  go_on-Safe :
      (body : Body) (v : Verified (Unit {0}))
      → Triple (Checked v) (go_on env p cfg body v) (λ _. Safe) Safe
  unfolding go_on accept
  go_on-Safe body (raised e, c) = record { at = λ s z. z }
  go_on-Safe (test sub notification) (returned _, c) =
      split (cfg.enabled && is_allowlisted cfg sub) refl
    where
      split :
          (b : Bool)
          → (cfg.enabled && is_allowlisted cfg sub) ≡ b
          → Triple
              (Checked (returned tt, c))
              (if b then call env p (record_test sub notification) c else pure (returned tt, c))
              (λ _. Safe)
              Safe
      split true e = record { at = λ s z. (ground arith, (z.0, z.1)) }
      split false e = record { at = λ s z. z.1 }
  go_on-Safe (deposit payload) (returned _, c) = split cfg.enabled refl
    where
      split :
          (b : Bool)
          → cfg.enabled ≡ b
          → Triple
              (Checked (returned tt, c))
              (if b
                then call env p (ingest payload) c
                else pure (raised (unavailable "circle_gateway_webhooks_disabled"), c))
              (λ _. Safe)
              Safe
      split true e = record { at = λ s z. (e, (z.0, z.1)) }
      split false e = record { at = λ s z. z.1 }
  go_on-Safe unread (returned _, c) = record { at = λ s z. ground arith }

-- Whatever the answers, the webhook records a signed test and ingests a deposit only if webhooks are
-- enabled, only for an allowlisted subscription in the case of a test, and only if the raw body of
-- the request has its signature by a key that was cached for its key identity before or that the
-- provider gave for it, with this identity and the expected algorithm.
pub gateway-IsSigned :
    (env : Environment Answer) (p : Provider) (cfg : Config) (raw : Option String) (body : Body)
    (id signature : Option String) (c : Caches) (s : Session Answer)
    → IsSigned p cfg raw id signature c.keys s.calls
    → IsSigned p cfg raw id signature c.keys (gateway env p cfg raw body id signature c s).1.calls
unfolding gateway verify go_on
gateway-IsSigned env p cfg none body id signature c s z = z
gateway-IsSigned env p cfg (some raw) body none signature c s z = z
gateway-IsSigned env p cfg (some raw) body (some id) none c s z = z
gateway-IsSigned env p cfg (some raw) body (some id) (some signature) c s z =
    Triple-either (gateway env p cfg (some raw) body (some id) (some signature) c)
      (Triple-bind (Checked env p cfg raw id signature c.keys)
        (verify-Checked env p cfg raw id signature c.keys c refl)
        (go_on-Safe env p cfg raw id signature c.keys body))
      s z
