-- ===== src/Settlement/Service/Methods/Keeps.antt =====
-- What every part of the settlement service keeps, `reconcile` keeps.
use bug_bounty_escrow.Prelude.{String, Bool, true, false}
use bug_bounty_escrow.Effect.{Session, Environment, Action, ◌>>=◌}
use bug_bounty_escrow.Effect.Triples.{Triple, Triple-bind}
use bug_bounty_escrow.Access.{Principal}
use bug_bounty_escrow.Settlement.{IntentRow, Answer}
use bug_bounty_escrow.Settlement.Service.{
  Flow, finish, go_on, continue_with, escrow_address_of, recover_approval, confirm_submitted,
  find_existing, relay_payout,
}
use bug_bounty_escrow.Settlement.Service.Methods.{
  when, refreshed, track_payout, from_tracking, from_relay, from_search, from_verification,
  from_recovery,
}

-- The action keeps `P`, whether it returns or raises.
abbrev pub Keeps : {A : Type 0} → (Session Answer → Type 0) → Action Answer A → Type 0
Keeps P m = Triple P m (λ _. P) P

-- Each part of `reconcile` keeps `P`.
pub record KeptByParts (env : Environment Answer) (p : Principal) (P : Session Answer → Type 0)
    : Type 0 where
  pub address : (row : IntentRow) → Keeps P (escrow_address_of row)
  pub recovery : (a : String) (row : IntentRow) → Keeps P (recover_approval env p a row)
  pub verification : (a : String) (row : IntentRow) → Keeps P (confirm_submitted env a row)
  pub existing : (a : String) (row : IntentRow) → Keeps P (find_existing env a row)
  pub relay : (a : String) (row : IntentRow) → Keeps P (relay_payout env a row)
  pub tracking : (a : String) (row : IntentRow) → Keeps P (track_payout env a row)
  pub ending : (id : String) → Keeps P (refreshed env id)

module _ {P : Session Answer → Type 0} where
  continue_with-Keeps :
      {next : IntentRow → Action Answer IntentRow}
      → ((row : IntentRow) → Keeps P (next row))
      → (flow : Flow) → Keeps P (continue_with next flow)
  continue_with-Keeps t (finish row) = record { at = λ s h. h }
  continue_with-Keeps t (go_on row) = t row

  when-Keeps :
      (env : Environment Answer) (test : Bool) {part : Action Answer Flow} (row : IntentRow)
      → Keeps P part
      → Keeps P (when env test part row)
  unfolding when
  when-Keeps env true row t = t
  when-Keeps env false row t = record { at = λ s h. h }

module _ (env : Environment Answer) (p : Principal) {P : Session Answer → Type 0}
    (k : KeptByParts env p P) where
  from_tracking-Keeps : (a : String) (row : IntentRow) → Keeps P (from_tracking env a row)
  unfolding from_tracking
  from_tracking-Keeps a row =
      Triple-bind (λ _. P) (when-Keeps env _ row (k.tracking a row))
        (continue_with-Keeps (λ r. k.ending r.id))

  from_relay-Keeps : (a : String) (row : IntentRow) → Keeps P (from_relay env a row)
  unfolding from_relay
  from_relay-Keeps a row =
      Triple-bind (λ _. P) (when-Keeps env _ row (k.relay a row))
        (continue_with-Keeps (from_tracking-Keeps a))

  from_search-Keeps : (a : String) (row : IntentRow) → Keeps P (from_search env a row)
  unfolding from_search
  from_search-Keeps a row =
      Triple-bind (λ _. P) (when-Keeps env _ row (k.existing a row))
        (continue_with-Keeps (from_relay-Keeps a))

  from_verification-Keeps : (a : String) (row : IntentRow) → Keeps P (from_verification env a row)
  unfolding from_verification
  from_verification-Keeps a row =
      Triple-bind (λ _. P) (when-Keeps env _ row (k.verification a row))
        (continue_with-Keeps (from_search-Keeps a))

  from_recovery-Keeps : (a : String) (row : IntentRow) → Keeps P (from_recovery env p a row)
  unfolding from_recovery
  from_recovery-Keeps a row =
      Triple-bind (λ _. P) (when-Keeps env _ row (k.recovery a row))
        (continue_with-Keeps (from_verification-Keeps a))

  -- From the row on.
  pub reconcile_row-Keeps :
      (row : IntentRow) → Keeps P (escrow_address_of row >>= λ a. from_recovery env p a row)
  reconcile_row-Keeps row = Triple-bind (λ _. P) (k.address row) (λ a. from_recovery-Keeps a row)
