-- ===== src/Subscription/Service/Calls.antt =====
-- What the calls of a registration say of its lease, and of the readiness of the intent.
use bug_bounty_escrow.Prelude.{
  ℕ, String, true, Option, none, some, List, [], ◌∷◌, ◌≡◌, ◌⊎◌, if◌then◌else◌,
}
use bug_bounty_escrow.Effect.{Outcome, returned, raised, Event, did}
use bug_bounty_escrow.Ai.{Text}
use bug_bounty_escrow.Subscription.{Prepared, Answer, prepare, complete, fail, is_ready}

abbrev pub claim : Prepared → String → Option (String × ℕ) → Option (String × ℕ)
claim p lease before = if p.claimed then some (lease, p.revision) else before

-- The lease that is claimed and not given back, with the revision it is for.
abbrev pub held : List (Event Answer) → Option (String × ℕ)
held [] = none
held (did (prepare _ _ lease _) (returned p) ∷ calls) = claim p lease (held calls)
held (did (complete _) (returned _) ∷ _) = none
held (did (fail _ _ _ _) (returned _) ∷ _) = none
held (did _ _ ∷ calls) = held calls

abbrev pub IsOf : String → ℕ → Option (String × ℕ) → Type 0
IsOf lease revision none = ⊥
IsOf lease revision (some (l, r)) = (l ≡ lease) × (r ≡ revision)

abbrev pub Holds : String → Option (String × ℕ) → Type 0
Holds lease none = ⊥
Holds lease (some (l, _)) = l ≡ lease

-- One lease at a time: only a held lease is completed, with its revision, or failed.
abbrev pub IsTidy : List (Event Answer) → Type 0
IsTidy [] = Unit
IsTidy (did (prepare _ _ _ _) _ ∷ calls) = (held calls ≡ none) × IsTidy calls
IsTidy (did (complete c) _ ∷ calls) =
    IsOf c.lease_id c.expected_revision (held calls) × IsTidy calls
IsTidy (did (fail _ lease _ _) _ ∷ calls) = Holds lease (held calls) × IsTidy calls
IsTidy (did _ _ ∷ calls) = IsTidy calls

-- The call that was made last is the store's failure to give a lease back.
abbrev pub IsStuck : List (Event Answer) → Type 0
IsStuck (did (fail _ _ _ _) (raised _) ∷ _) = Unit
IsStuck _ = ⊥

-- The store just answered that the intent is ready.
abbrev pub IsReady : String → Option Text → List (Event Answer) → Type 0
IsReady intent (some subscription) (did (is_ready i t) (returned true) ∷ _) =
    (i ≡ intent) × (t ≡ subscription)
IsReady intent _ _ = ⊥

-- A registration that returned leaves no lease, and the intent ready; one that raised an exception
-- leaves no lease, or the store failed to give it back.
abbrev pub IsEnded : String → Option Text → Outcome (Unit {0}) → List (Event Answer) → Type 0
IsEnded intent subscription (returned _) calls =
    (held calls ≡ none) × IsReady intent subscription calls
IsEnded intent subscription (raised _) calls = (held calls ≡ none) ⊎ IsStuck calls
