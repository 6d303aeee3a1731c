-- ===== src/Withdrawal/Service/Methods/Evidence.antt =====
-- A withdrawal is completed by what the chain verified.
use bug_bounty_escrow.Prelude.{String, List, [], ◌∷◌, ◌≡◌, ◌⊎◌, arith}
use bug_bounty_escrow.Effect.{returned, Event, did, Session, Environment}
use bug_bounty_escrow.Effect.Triples.{Triple-either}
use bug_bounty_escrow.Access.{Principal}
use bug_bounty_escrow.Withdrawal.{
  CloseEvidence, WithdrawalEvidence, Answer, verify_close, confirm_close, verify_withdrawal,
  reconcile_withdrawal,
}
use bug_bounty_escrow.Withdrawal.Service.Methods.{
  owned_intent, owner_wallet_of, confirm_closed, confirm_withdrawn, on_failure, reconcile,
}
use bug_bounty_escrow.Withdrawal.Service.Methods.Keeps.{KeptByParts, reconcile-Keeps}

abbrev pub SawClose : CloseEvidence → List (Event Answer) → Type 0
SawClose e [] = ⊥
SawClose e (did (verify_close _ _ _) (returned seen) ∷ calls) = (seen ≡ e) ⊎ SawClose e calls
SawClose e (did _ _ ∷ calls) = SawClose e calls

abbrev pub SawWithdrawal : WithdrawalEvidence → List (Event Answer) → Type 0
SawWithdrawal e [] = ⊥
SawWithdrawal e (did (verify_withdrawal _) (returned seen) ∷ calls) =
    (seen ≡ e) ⊎ SawWithdrawal e calls
SawWithdrawal e (did _ _ ∷ calls) = SawWithdrawal e calls

-- Every close and every withdrawal was recorded with evidence that the chain gave before.
abbrev pub IsEvidenced : List (Event Answer) → Type 0
IsEvidenced [] = Unit
IsEvidenced (did (confirm_close _ e) _ ∷ calls) = SawClose e calls × IsEvidenced calls
IsEvidenced (did (reconcile_withdrawal _ e) _ ∷ calls) = SawWithdrawal e calls × IsEvidenced calls
IsEvidenced (did _ _ ∷ calls) = IsEvidenced calls

abbrev HasEvidence : Session Answer → Type 0
HasEvidence s = IsEvidenced s.calls

parts-HasEvidence : (env : Environment Answer) → KeptByParts env HasEvidence
unfolding owned_intent owner_wallet_of confirm_closed confirm_withdrawn on_failure
parts-HasEvidence env = record {
  owned = λ p pid id. record { at = λ s h. ground arith };
  wallet = λ pid row. record { at = λ s h. ground arith };
  closed = λ pid id escrow wallet row. record { at = λ s h. ground arith };
  withdrawn = λ pid id escrow row. record { at = λ s h. ground arith };
  failure = λ id row e. record { at = λ s h. ground arith };
}

-- Whatever the answers, every close and every withdrawal that `reconcileWithdrawal` records
-- carries evidence that the chain gave before.
pub reconcile-withdrawal-IsEvidenced :
    (env : Environment Answer) (p : Principal) (program_id intent_id : String) (s : Session Answer)
    → IsEvidenced s.calls
    → IsEvidenced (reconcile env p program_id intent_id s).1.calls
reconcile-withdrawal-IsEvidenced env p program_id intent_id s h =
    Triple-either (reconcile env p program_id intent_id)
      (reconcile-Keeps env (parts-HasEvidence env) program_id intent_id p) s h
