-- ===== src/Deployment/Service/Evidence.antt =====
-- When an escrow is deployed and when its deployment is confirmed.
use bug_bounty_escrow.Prelude.{
  ℕ, zero, suc, is_none, String, Bool, true, false, ◌||◌, List, [], ◌∷◌, Option, some, none, ◌≡◌,
  ◌⊎◌, arith, if◌then◌else◌,
}
use bug_bounty_escrow.Effect.{
  Failure, returned, Event, did, Session, Environment, Action, perform, throw, pure, other, catch,
}
use bug_bounty_escrow.Effect.Triples.{
  Triple, Triple-bind, Triple-catch, Triple-either, Triple-weaken,
}
use bug_bounty_escrow.Access.{Principal, require_owner}
use bug_bounty_escrow.Deployment.{
  DeploymentRow, QuoteRow, Deployed, DeploymentResult, Answer, find_active_quote, circle_deploy,
  verify_deployment, register_escrow, wait_transaction, confirm_deployment, wait_deployment,
}
use bug_bounty_escrow.Deployment.Service.{
  is_settled, ends_loop, Primitives, Plan, mapped, is_paid, owns, check_deadline, paid_quote,
  plan_for, key_or_new, record_plan, submit, rotate, on_rejection, round, submit_loop, submitted,
  confirm, on_result, run, run_unsettled, deploy,
}

-- The chain verified a deployment.
abbrev pub Verified : Deployed → List (Event Answer) → Type 0
Verified d [] = ⊥
Verified d (did (verify_deployment q) (returned _) ∷ calls) = (q.deployed ≡ d) ⊎ Verified d calls
Verified d (did _ _ ∷ calls) = Verified d calls

-- The provider took the registration of this contract as this transaction.
abbrev pub Submitted : String → String → List (Event Answer) → Type 0
Submitted contract tx [] = ⊥
Submitted contract tx (did (register_escrow _ _ _ c) (returned t) ∷ calls) =
    ((c ≡ contract) × (t ≡ tx)) ⊎ Submitted contract tx calls
Submitted contract tx (did _ _ ∷ calls) = Submitted contract tx calls

-- A registration of this contract did not fail.
abbrev pub Registered : String → List (Event Answer) → Type 0
Registered contract [] = ⊥
Registered contract (did (wait_transaction tx) (returned false) ∷ calls) =
    Submitted contract tx calls ⊎ Registered contract calls
Registered contract (did _ _ ∷ calls) = Registered contract calls

-- The fee quote that was read last.
abbrev pub latest_quote : List (Event Answer) → Option QuoteRow
latest_quote [] = none
latest_quote (did (find_active_quote _) (returned quote) ∷ _) = quote
latest_quote (did _ _ ∷ calls) = latest_quote calls

-- The fee is paid or waived, and this is its payer.
abbrev pub PaidBy : String → Option QuoteRow → Type 0
PaidBy wallet none = ⊥
PaidBy wallet (some quote) = (is_paid quote.status ≡ true) × (quote.payer_address ≡ some wallet)

-- Every deployment was handed over for the payer of a paid fee, as owner and as recipient, and
-- every confirmed one was verified and registered.
abbrev pub IsBacked : List (Event Answer) → Type 0
IsBacked [] = Unit
IsBacked (did (circle_deploy i) _ ∷ calls) =
    PaidBy i.owner_wallet (latest_quote calls)
    × ((i.withdraw_recipient ≡ i.owner_wallet) × IsBacked calls)
IsBacked (did (confirm_deployment _ d) _ ∷ calls) =
    Verified d calls × (Registered d.contract_address calls × IsBacked calls)
IsBacked (did _ _ ∷ calls) = IsBacked calls

module _ (env : Environment Answer) (h : Primitives) (pid : String) where
  abbrev Fine : Session Answer → Type 0
  Fine s = IsBacked s.calls

  -- The fee of this plan is paid by the owner that it names.
  abbrev Paid : Plan → Session Answer → Type 0
  Paid plan s = PaidBy plan.terms.owner_wallet (latest_quote s.calls) × Fine s

  abbrev Quoted : QuoteRow → Session Answer → Type 0
  Quoted quote s = (latest_quote s.calls ≡ some quote) × ((is_paid quote.status ≡ true) × Fine s)

  owner-Fine : (p : Principal) → Triple Fine (require_owner (owns env h) p pid) (λ _. Fine) Fine
  unfolding require_owner owns
  owner-Fine p = record { at = λ s z. ground arith }

  quote-Quoted : Triple Fine (paid_quote env h pid) Quoted Fine
  unfolding paid_quote
  quote-Quoted = record { at = λ s z. ground arith }

  plan-Paid :
      (admin : Option String) (quote : QuoteRow)
      → Triple (Quoted quote) (plan_for env h admin pid quote) Paid Fine
  unfolding plan_for check_deadline
  plan-Paid admin quote = record { at = λ s z. ground arith }

  module _ (plan : Plan) where
    abbrev Keeps : {A : Type 0} → Action Answer A → Type 0
    Keeps m = Triple (Paid plan) m (λ _. Paid plan) (Paid plan)

    record-Paid : (p : Principal) → Keeps (record_plan env h p pid plan)
    unfolding record_plan key_or_new
    record-Paid p = record { at = λ s z. ground arith }

    submit-Paid : (row : DeploymentRow) → Keeps (submit env h pid plan row)
    unfolding submit
    submit-Paid row = record { at = λ s z. ground arith }

    rotate-Paid : (row : DeploymentRow) → Keeps (rotate env h plan row)
    unfolding rotate
    rotate-Paid row = record { at = λ s z. ground arith }

    raise-Paid : (e : Failure) → Keeps {A = DeploymentRow} (throw e)
    raise-Paid e = record { at = λ s z. z }

    either :
        (b : Bool) (m k : Action Answer DeploymentRow)
        → Keeps m
        → Keeps k
        → Keeps (if b then m else k)
    either true m k t u = t
    either false m k t u = u

    loop-Paid : (fuel : ℕ) (row : DeploymentRow) → Keeps (submit_loop env h fuel pid plan row)
    unfolding submit_loop round on_rejection
    loop-Paid zero row = raise-Paid (other "out of fuel")
    loop-Paid (suc fuel) row = Triple-catch (Paid plan) (submit-Paid row) λ e.
        either (ends_loop e row) _ _ (raise-Paid e)
          (Triple-bind (λ _. Paid plan) (rotate-Paid row) (loop-Paid fuel))

    submitted-Paid : (row : DeploymentRow) → Keeps (submitted env h pid plan row)
    unfolding submitted
    submitted-Paid row =
        either (is_none row.circle_contract_id || is_none row.circle_transaction_id) _ _
          (loop-Paid 4 row) (record { at = λ s z. z })

    result-Fine :
        (row : DeploymentRow) (result : DeploymentResult)
        → Triple (Paid plan) (on_result env h plan row result) (λ _. Fine) Fine
    unfolding on_result confirm
    result-Fine row DeploymentResult.pending = record { at = λ s z. z.1 }
    result-Fine row (DeploymentResult.failed code) = record { at = λ s z. ground arith }
    result-Fine row (DeploymentResult.confirmed d) = record { at = λ s z. ground arith }

    wait-Paid : (c t : Option String) → Keeps (perform env (wait_deployment c t))
    wait-Paid c t = record { at = λ s z. ground arith }

    to-Fine :
        {A : Type 0} {m : Action Answer A} → Keeps m → Triple (Paid plan) m (λ _. Paid plan) Fine
    to-Fine t = Triple-weaken t (λ a s z. z) (λ s z. z.1)

    run-Fine : (row : DeploymentRow) → Triple (Paid plan) (run env h pid plan row) (λ _. Fine) Fine
    unfolding run
    run-Fine row =
        Triple-bind (λ _. Paid plan) (to-Fine (submitted-Paid row))
          λ sent.
            Triple-bind (λ _. Paid plan)
              (to-Fine (wait-Paid sent.circle_contract_id sent.circle_transaction_id))
              (λ result. result-Fine sent result)

    unsettled-Fine :
        (row : DeploymentRow)
        → Triple (Paid plan) (run_unsettled env h pid plan row) (λ _. Fine) Fine
    unfolding run_unsettled
    unsettled-Fine row = branch (is_settled row.status)
      where
        branch :
            (b : Bool)
            → Triple
                (Paid plan)
                (if b then pure row else catch (run env h pid plan row) (λ e. throw (mapped e)))
                (λ _. Fine)
                Fine
        branch true = record { at = λ s z. z.1 }
        branch false = Triple-catch Fine (run-Fine row) (λ e. record { at = λ s z. z })

  deploy-Fine :
      (admin : Option String) (p : Principal)
      → Triple Fine (deploy env h admin p pid) (λ _. Fine) Fine
  unfolding deploy
  deploy-Fine admin p =
      Triple-bind (λ _. Fine) (owner-Fine p)
        λ _. Triple-bind Quoted quote-Quoted λ quote.
          Triple-bind Paid (plan-Paid admin quote) λ plan.
            Triple-bind (λ _. Paid plan) (to-Fine plan (record-Paid plan p))
              (λ row. unsettled-Fine plan row)

-- Whatever the answers, `deploy` hands an escrow over only for the payer of a fee that by the latest
-- answer is paid or waived, as its owner and as the recipient of withdrawals; and it confirms a
-- deployment only after the chain verified this very deployment and a registration of its contract
-- with the admin contract did not fail.
pub deploy-IsBacked :
    (env : Environment Answer) (h : Primitives) (admin : Option String) (p : Principal)
    (program_id : String) (s : Session Answer)
    → IsBacked s.calls
    → IsBacked (deploy env h admin p program_id s).1.calls
deploy-IsBacked env h admin p program_id s backed =
    Triple-either (deploy env h admin p program_id) (deploy-Fine env h program_id admin p) s backed
