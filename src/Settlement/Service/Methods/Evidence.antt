-- ===== src/Settlement/Service/Methods/Evidence.antt =====
-- What is confirmed to the database was seen on the chain.
use bug_bounty_escrow.Prelude.{String, List, [], ◌∷◌, Option, none, some, ◌≡◌, ◌⊎◌, arith}
use bug_bounty_escrow.Effect.{returned, Event, did, Session, Environment}
use bug_bounty_escrow.Effect.Triples.{Triple-bind, Triple-either}
use bug_bounty_escrow.Access.{Principal}
use bug_bounty_escrow.Settlement.{
  ApprovalEvidence, PayoutEvidence, Answer, verify_approval, confirm_approval, find_payout,
  verify_payout, confirm_payout,
}
use bug_bounty_escrow.Settlement.Service.{
  require_intent, recover_approval, confirm_submitted, find_existing, relay_payout,
}
use bug_bounty_escrow.Settlement.Service.Methods.{refreshed, track_payout, reconcile}
use bug_bounty_escrow.Settlement.Service.Methods.Keeps.{Keeps, KeptByParts, reconcile_row-Keeps}

-- The chain answered with this evidence of a payout.
abbrev pub SawPayout : PayoutEvidence → List (Event Answer) → Type 0
SawPayout e [] = ⊥
SawPayout e (did (find_payout _ _) (returned (some found)) ∷ calls) =
    (found ≡ e) ⊎ SawPayout e calls
SawPayout e (did (verify_payout _ _) (returned found) ∷ calls) = (found ≡ e) ⊎ SawPayout e calls
SawPayout e (did _ _ ∷ calls) = SawPayout e calls

-- The chain verified an approval with this evidence.
abbrev pub SawApproval : ApprovalEvidence → List (Event Answer) → Type 0
SawApproval e [] = ⊥
SawApproval e (did (verify_approval _ _) (returned found) ∷ calls) =
    (found ≡ e) ⊎ SawApproval e calls
SawApproval e (did _ _ ∷ calls) = SawApproval e calls

-- Every confirmation was preceded by the evidence that it carries.
abbrev pub IsEvidenced : List (Event Answer) → Type 0
IsEvidenced [] = Unit
IsEvidenced (did (confirm_payout _ e) _ ∷ calls) = SawPayout e calls × IsEvidenced calls
IsEvidenced (did (confirm_approval _ e) _ ∷ calls) = SawApproval e calls × IsEvidenced calls
IsEvidenced (did _ _ ∷ calls) = IsEvidenced calls

abbrev HasEvidence : Session Answer → Type 0
HasEvidence s = IsEvidenced s.calls

module _ (env : Environment Answer) (p : Principal) where
  parts-HasEvidence : KeptByParts env p HasEvidence
  unfolding recover_approval confirm_submitted find_existing relay_payout track_payout refreshed
  parts-HasEvidence = record {
    address = λ row. record { at = λ s h. ground arith };
    recovery = λ a row. record { at = λ s h. ground arith };
    verification = λ a row. record { at = λ s h. ground arith };
    existing = λ a row. record { at = λ s h. ground arith };
    relay = λ a row. record { at = λ s h. ground arith };
    tracking = λ a row. record { at = λ s h. ground arith };
    ending = λ id. record { at = λ s h. ground arith };
  }

  require_intent-HasEvidence :
      (report_id : String) (id : Option String)
      → Keeps HasEvidence (require_intent env p report_id id)
  unfolding require_intent
  require_intent-HasEvidence report_id none = record { at = λ s h. ground arith }
  require_intent-HasEvidence report_id (some id) = record { at = λ s h. ground arith }

  reconcile-HasEvidence :
      (report_id intent_id : String) → Keeps HasEvidence (reconcile env p report_id intent_id)
  unfolding reconcile
  reconcile-HasEvidence report_id intent_id =
      Triple-bind (λ _. HasEvidence) (require_intent-HasEvidence report_id (some intent_id))
        (reconcile_row-Keeps env p parts-HasEvidence)

-- Every confirmation of an approval or of a payout that `reconcile` sends to the database carries
-- evidence that the chain answered with before, whatever the answers are.
pub reconcile-IsEvidenced :
    (env : Environment Answer) (p : Principal) (report_id intent_id : String) (s : Session Answer)
    → IsEvidenced s.calls
    → IsEvidenced (reconcile env p report_id intent_id s).1.calls
reconcile-IsEvidenced env p report_id intent_id s h =
    Triple-either (reconcile env p report_id intent_id)
      (reconcile-HasEvidence env p report_id intent_id) s h
