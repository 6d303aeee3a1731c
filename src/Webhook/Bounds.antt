-- ===== src/Webhook/Bounds.antt =====
-- The caches of the verifier are bounded.
use bug_bounty_escrow.Prelude.{
  ℕ, ◌+◌, ◌≤◌, String, Bool, true, false, ◌&&◌, ◌||◌, ◌==◌, Option, none, some, [], ◌∷◌, ◌++◌,
  length, ◌≡◌, refl, arith, if◌then◌else◌, leb, ltb, codes,
}
use bug_bounty_escrow.Effect.{
  unauthorized, unavailable, Outcome, returned, raised, Session, Environment, Action, pure, catch,
  perform,
}
use bug_bounty_escrow.Effect.Triples.{Post, Triple, Triple-bind}
use bug_bounty_escrow.Webhook.{
  Lookup, refused, found, Answer, now, fetch_key, Entries, Cached, Caches, Provider, lookup, delete,
  drop_oldest, set_bounded, drop_expired, prune_caches, new_window, max_lookups, count_lookup,
  forget_unknown, remember_unknown, remember_key, accepted_key, is_key_id, is_base64, Verified,
  keep_key, read_lookup, fetch_for, spend, look_up, unless_unknown, unless_cached, get_key,
  check_signature, verify,
}

-- At most 128 keys and 128 unknown keys are kept, and at most 16 lookups are made in a window.
abbrev pub IsBounded : Caches → Type 0
IsBounded c = (length c.keys ≤ 128) × ((length c.unknown_keys ≤ 128) × (c.lookups ≤ 16))

module _ {V : Type 0} where
  length-drop_oldest : (entries : Entries V) → length (drop_oldest entries) ≤ 128
  unfolding drop_oldest
  length-drop_oldest [] = omega arith
  length-drop_oldest (entry ∷ rest) = ground (arith, length-drop_oldest rest)

  length-delete : (id : String) (entries : Entries V) → length (delete id entries) ≤ length entries
  unfolding delete
  length-delete id [] = omega arith
  length-delete id ((k, v) ∷ rest) = ground (arith, length-delete id rest)

  length-set_bounded :
      (id : String) (v : V) (entries : Entries V) → length (set_bounded id v entries) ≤ 128
  unfolding set_bounded
  length-set_bounded id v entries = length-drop_oldest (delete id entries ++ (id, v) ∷ [])

  length-drop_expired :
      (expiry : V → ℕ) (time : ℕ) (entries : Entries V)
      → length (drop_expired expiry time entries) ≤ length entries
  unfolding drop_expired
  length-drop_expired expiry time [] = omega arith
  length-drop_expired expiry time ((k, v) ∷ rest) =
      ground (arith, length-drop_expired expiry time rest)

prune_caches-IsBounded : (time : ℕ) (c : Caches) → IsBounded c → IsBounded (prune_caches time c)
unfolding prune_caches
prune_caches-IsBounded time c b = (
  omega (arith, length-drop_expired (λ cached. cached.expires_at) time c.keys, b.0),
  (omega (arith, length-drop_expired (λ expires. expires) time c.unknown_keys, b.1.0), b.1.1),
)

new_window-IsBounded : (time : ℕ) (c : Caches) → IsBounded c → IsBounded (new_window time c)
unfolding new_window
new_window-IsBounded time c b = ground arith

module _ (env : Environment Answer) (p : Provider) (id : String) where
  abbrev Any : Session Answer → Type 0
  Any s = Unit

  abbrev Bounded : {A : Type 0} → Verified A → Session Answer → Type 0
  Bounded v s = IsBounded v.1

  now-Any : Triple Any (perform env now) (λ _. Any) Any
  now-Any = record { at = λ s z. ground arith }

  pure-Bounded :
      {A : Type 0} (o : Outcome A) (c : Caches) → IsBounded c → Triple Any (pure (o, c)) Bounded Any
  pure-Bounded o c b = record { at = λ s z. b }

  keep_key-Bounded :
      (c : Caches) (key : Option String)
      → IsBounded c
      → Triple Any (keep_key env p id c key) Bounded Any
  unfolding keep_key remember_key
  keep_key-Bounded c none b = pure-Bounded (raised unauthorized) c b
  keep_key-Bounded c (some key) b =
      Triple-bind (λ _. Any) now-Any
        (λ time.
          pure-Bounded (returned key) (remember_key id key (time + 600000) c)
            (length-set_bounded id (record { key = key; expires_at = time + 600000 }) c.keys, b.1))

  either :
      {A : Type 0} (t : Bool) {m k : Action Answer (Verified A)}
      → (t ≡ true → Triple Any m Bounded Any)
      → (t ≡ false → Triple Any k Bounded Any)
      → Triple Any (if t then m else k) Bounded Any
  either true u v = u refl
  either false u v = v refl

  read_lookup-Bounded :
      (c : Caches) (answer : Lookup)
      → IsBounded c
      → Triple Any (read_lookup env p id c answer) Bounded Any
  unfolding read_lookup remember_unknown
  read_lookup-Bounded c Lookup.unreachable b = pure-Bounded _ c b
  read_lookup-Bounded c Lookup.garbled b = pure-Bounded _ c b
  read_lookup-Bounded c (refused status) b =
      either (status == 400 || status == 404)
        (λ _.
          Triple-bind (λ _. Any) now-Any
            (λ time.
              pure-Bounded (raised unauthorized) (remember_unknown id (time + 60000) c)
                (b.0, (length-set_bounded id (time + 60000) c.unknown_keys, b.1.1))))
        (λ _. pure-Bounded (raised (unavailable "circle_webhook_key_lookup_failed")) c b)
  read_lookup-Bounded c (found body) b = keep_key-Bounded c (accepted_key p id body) b

  fetch-Any :
      Triple Any (catch (perform env (fetch_key id)) (λ _. pure Lookup.unreachable)) (λ _. Any) Any
  fetch-Any = record { at = λ s z. ground arith }

  spend-Bounded : (c : Caches) → IsBounded c → Triple Any (spend env p id c) Bounded Any
  unfolding spend fetch_for
  spend-Bounded c b =
      either (leb max_lookups c.lookups) (λ _. pure-Bounded _ c b)
        (λ left.
          Triple-bind (λ _. Any) fetch-Any
            (λ answer.
              read_lookup-Bounded (count_lookup c) answer (b.0, (b.1.0, ground (arith, left)))))

  look_up-Bounded : (c : Caches) → IsBounded c → Triple Any (look_up env p id c) Bounded Any
  unfolding look_up
  look_up-Bounded c b =
      either p.has_api_key
        (λ _.
          Triple-bind (λ _. Any) now-Any
            (λ time. spend-Bounded (new_window time c) (new_window-IsBounded time c b)))
        (λ _. pure-Bounded _ c b)

  unless_unknown-Bounded :
      (c : Caches) (expires : Option ℕ)
      → IsBounded c
      → Triple Any (unless_unknown env p id c expires) Bounded Any
  unfolding unless_unknown
  unless_unknown-Bounded c none b = look_up-Bounded c b
  unless_unknown-Bounded c (some expires) b =
      Triple-bind (λ _. Any) now-Any
        (λ time.
          either (ltb time expires) (λ _. pure-Bounded _ c b)
            (λ _.
              look_up-Bounded (forget_unknown id c)
                (b.0, (omega (arith, length-delete id c.unknown_keys, b.1.0), b.1.1))))

  unless_cached-Bounded :
      (c : Caches) (cached : Option Cached)
      → IsBounded c
      → Triple Any (unless_cached env p id c cached) Bounded Any
  unfolding unless_cached
  unless_cached-Bounded c none b = unless_unknown-Bounded c (lookup id c.unknown_keys) b
  unless_cached-Bounded c (some cached) b = pure-Bounded _ c b

  get_key-Bounded : (c : Caches) → IsBounded c → Triple Any (get_key env p id c) Bounded Any
  unfolding get_key
  get_key-Bounded c b =
      Triple-bind (λ _. Any) now-Any
        (λ time. unless_cached-Bounded (prune_caches time c) _ (prune_caches-IsBounded time c b))

  check-Bounded :
      (raw signature : String) (v : Verified String)
      → IsBounded v.1
      → Triple Any (check_signature env p raw signature v) Bounded Any
  unfolding check_signature
  check-Bounded raw signature (raised e, c) b = pure-Bounded _ c b
  check-Bounded raw signature (returned key, c) b =
      either (p.verifies raw key signature) (λ _. pure-Bounded _ c b) (λ _. pure-Bounded _ c b)

  from-Bounded :
      (raw signature : String) (v : Verified String)
      → Triple (Bounded v) (check_signature env p raw signature v) Bounded Any
  from-Bounded raw signature v = record { at = λ s z. (check-Bounded raw signature v z).at s tt }

  verify-Bounded :
      (raw signature : String) (c : Caches)
      → IsBounded c
      → Triple Any (verify env p raw (some id) (some signature) c) Bounded Any
  unfolding verify
  verify-Bounded raw signature c b =
      either (is_key_id id && is_base64 (codes signature))
        (λ _. Triple-bind Bounded (get_key-Bounded c b) (from-Bounded raw signature))
        (λ _. pure-Bounded _ c b)

-- The caches that the verifier leaves.
abbrev pub LeavesBounded : Outcome (Verified (Unit {0})) → Type 0
LeavesBounded (returned v) = IsBounded v.1
LeavesBounded (raised e) = Unit

leaves :
    (o : Outcome (Verified (Unit {0}))) (s : Session Answer)
    → Post (λ v _. IsBounded v.1) (λ _. Unit) o s
    → LeavesBounded o
leaves (returned v) s z = z
leaves (raised e) s z = tt

-- Whatever the answers, a verification, whether it accepts the signature or not, leaves at most 128
-- cached keys, at most 128 keys known as unknown, and at most 16 counted lookups in a window, if
-- there were no more before.
pub verify-IsBounded :
    (env : Environment Answer) (p : Provider) (raw : String) (id signature : Option String)
    (c : Caches) (s : Session Answer)
    → IsBounded c
    → LeavesBounded (verify env p raw id signature c s).0
unfolding verify
verify-IsBounded env p raw none signature c s b = b
verify-IsBounded env p raw (some id) none c s b = b
verify-IsBounded env p raw (some id) (some signature) c s b =
    leaves (verify env p raw (some id) (some signature) c s).0
      (verify env p raw (some id) (some signature) c s).1
      ((verify-Bounded env p id raw signature c b).at s tt)
