-- ===== src/Effect.antt =====
-- The effects of the services. An asynchronous method calls the database, the chain and the
-- payment provider; what call number n answers is the environment's, and every call is recorded
-- with its answer. A method takes the calls made so far, and returns a value or raises an
-- exception, together with the calls made then.
pub mod Triples
pub mod Agreement
use bug_bounty_escrow.Prelude.{ℕ, suc, String, Bool, true, false, List, [], ◌∷◌, Option}

-- The exceptions that the services raise, with the code of their body; `provider` is the
-- error of a provider (`EscrowProviderError`, `AiProviderError`) with its code, `retryable` and
-- `providerStatus`; `other` is any other.
pub data Failure : Type 0 where
  forbidden : Failure
  unauthorized : Failure
  not_found : Failure
  conflict : String → Failure
  unavailable : String → Failure
  gone : String → Failure
  unprocessable : String → Failure
  provider : String → Bool → Option ℕ → Failure
  other : String → Failure

pub data Outcome {ℓ} (A : Type ℓ) : Type ℓ where
  returned : A → Outcome A
  raised : Failure → Outcome A

-- One call with its answer.
pub data Event {Op : Type 0} (Answer : Op → Type 0) : Type 0 where
  did : (o : Op) → Outcome (Answer o) → Event Answer

-- The calls made so far, the latest first, and their number.
pub record Session {Op : Type 0} (Answer : Op → Type 0) : Type 0 where
  pub count : ℕ
  pub calls : List (Event Answer)

-- Before any call.
abbrev pub fresh : {Op : Type 0} (Answer : Op → Type 0) → Session Answer
fresh Answer = record { count = 0; calls = [] }

-- What the world outside answers to its n-th call. A statement for every environment holds
-- whatever the answers, also where they depend on the calls before.
abbrev pub Environment : {Op : Type 0} → (Op → Type 0) → Type 0
Environment {Op} Answer = ℕ → (o : Op) → Outcome (Answer o)

abbrev pub Action : {Op : Type 0} → (Op → Type 0) → Type 0 → Type 0
Action Answer A = Session Answer → Outcome A × Session Answer

module _ {Op : Type 0} {Answer : Op → Type 0} where
  abbrev pub pure : {A : Type 0} → A → Action Answer A
  pure a s = (returned a, s)

  abbrev pub throw : {A : Type 0} → Failure → Action Answer A
  throw e s = (raised e, s)

  abbrev pub continue : {A B : Type 0} → Outcome A → (A → Action Answer B) → Action Answer B
  continue (returned a) f s = f a s
  continue (raised e) f s = (raised e, s)

  infixl 5 ◌>>=◌ ◌>>◌
  abbrev pub ◌>>=◌ : {A B : Type 0} → Action Answer A → (A → Action Answer B) → Action Answer B
  ◌>>=◌ m f s = continue (m s).0 f (m s).1

  abbrev pub ◌>>◌ : {A B : Type 0} → Action Answer A → Action Answer B → Action Answer B
  m >> k = m >>= λ _. k

  abbrev pub recover : {A : Type 0} → Outcome A → (Failure → Action Answer A) → Action Answer A
  recover (returned a) f s = (returned a, s)
  recover (raised e) f s = f e s

  -- `try { m } catch (error) { f(error) }`
  abbrev pub catch : {A : Type 0} → Action Answer A → (Failure → Action Answer A) → Action Answer A
  catch m f s = recover (m s).0 f (m s).1

  -- `if (test) throw e;`
  abbrev pub throw_if : Bool → Failure → Action Answer (Unit {0})
  throw_if true e s = (raised e, s)
  throw_if false e s = (returned tt, s)

  -- `if (test) await m;`
  abbrev pub do_if : Bool → Action Answer (Unit {0}) → Action Answer (Unit {0})
  do_if true m s = m s
  do_if false m s = (returned tt, s)

  -- A value that must be there: `if (value === null) throw e;`
  abbrev pub require : {A : Type 0} → Option A → Failure → Action Answer A
  require Option.none e s = (raised e, s)
  require (Option.some a) e s = (returned a, s)

  -- `await repository.operation(...)`
  abbrev pub perform : Environment Answer → (o : Op) → Action Answer (Answer o)
  perform env o s =
      (env s.count o, record { count = suc s.count; calls = did o (env s.count o) ∷ s.calls })
