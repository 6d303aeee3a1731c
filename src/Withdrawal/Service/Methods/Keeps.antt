-- ===== src/Withdrawal/Service/Methods/Keeps.antt =====
-- What every part of `reconcileWithdrawal` keeps, the method keeps.
use bug_bounty_escrow.Prelude.{String, Bool, true, false, if◌then◌else◌}
use bug_bounty_escrow.Effect.{Failure, Session, Environment, Action, pure}
use bug_bounty_escrow.Effect.Triples.{Triple, Triple-bind, Triple-catch}
use bug_bounty_escrow.Access.{Principal}
use bug_bounty_escrow.Withdrawal.{EscrowRow, IntentRow, Answer}
use bug_bounty_escrow.Withdrawal.Service.Methods.{
  is_complete, on_failure, confirm_closed, confirm_withdrawn, owner_wallet_of, reconcile_incomplete,
  reconcile_row, owned_intent, reconcile,
}

abbrev pub Keeps : {A : Type 0} → (Session Answer → Type 0) → Action Answer A → Type 0
Keeps P m = Triple P m (λ _. P) P

pub record KeptByParts (env : Environment Answer) (P : Session Answer → Type 0) : Type 0 where
  pub owned : (p : Principal) (pid id : String) → Keeps P (owned_intent env p pid id)
  pub wallet : (pid : String) (row : IntentRow) → Keeps P (owner_wallet_of env pid row)
  pub closed :
      (pid id : String) (escrow : EscrowRow) (wallet : String) (row : IntentRow)
      → Keeps P (confirm_closed env pid id escrow wallet row)
  pub withdrawn :
      (pid id : String) (escrow : EscrowRow) (row : IntentRow)
      → Keeps P (confirm_withdrawn env pid id escrow row)
  pub failure : (id : String) (row : IntentRow) (e : Failure) → Keeps P (on_failure env id row e)

module _ (env : Environment Answer) {P : Session Answer → Type 0} (k : KeptByParts env P)
    (pid id : String) where
  reconcile_incomplete-Keeps : (row : IntentRow) → Keeps P (reconcile_incomplete env pid id row)
  unfolding reconcile_incomplete
  reconcile_incomplete-Keeps row =
      Triple-bind (λ _. P) (k.wallet pid row)
        λ checked.
          Triple-bind (λ _. P)
            (Triple-catch P (k.closed pid id checked.0 checked.1 row) (k.failure id row))
            λ closed_row.
              Triple-catch P (k.withdrawn pid id checked.0 closed_row) (k.failure id closed_row)

  reconcile_row-Keeps : (row : IntentRow) → Keeps P (reconcile_row env pid id row)
  unfolding reconcile_row
  reconcile_row-Keeps row = branch (is_complete row.status)
    where
      branch : (b : Bool) → Keeps P (if b then pure row else reconcile_incomplete env pid id row)
      branch true = record { at = λ s h. h }
      branch false = reconcile_incomplete-Keeps row

  pub reconcile-Keeps : (p : Principal) → Keeps P (reconcile env p pid id)
  unfolding reconcile
  reconcile-Keeps p = Triple-bind (λ _. P) (k.owned p pid id) reconcile_row-Keeps
