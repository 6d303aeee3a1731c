-- ===== src/Withdrawal/Service/Methods/Creation.antt =====
-- When a withdrawal is created.
use bug_bounty_escrow.Prelude.{
  ℕ, ◌/◌, ◌≤◌, ◌<◌, String, Bool, true, List, [], ◌∷◌, Option, none, some, ◌≡◌, arith, length,
}
use bug_bounty_escrow.Effect.{returned, Event, did, Session, Environment, perform}
use bug_bounty_escrow.Effect.Triples.{Triple, Triple-bind, Triple-either, Triple-catch}
use bug_bounty_escrow.Domain.{ProgramStatus}
use bug_bounty_escrow.Access.{Principal, require_owner}
use bug_bounty_escrow.Withdrawal.{
  EscrowState, EscrowRow, CreateInput, LateFunding, LateFundingScan, Answer, find_late_funding,
  get_withdrawal_state, now, get_program_status, create_intent,
}
use bug_bounty_escrow.Withdrawal.Service.{
  has_ended, prepare_creation, read_state, record_batches, record_batch, create_from, create,
  batches, ended_escrow, check_state, Columns, scan_from, owns,
}
use bug_bounty_escrow.Withdrawal.Service.Methods.Keeps.{KeptByParts, reconcile-Keeps}
use bug_bounty_escrow.Withdrawal.Service.Methods.{
  failed_intent, owned_intent, owner_wallet_of, confirm_closed, confirm_withdrawn, on_failure,
  create_replacement, active, get, observe, Request, create_request, replacement_request,
  active_request, get_request, observe_request, reconcile_request, serve,
}

-- The latest answers of the chain, of the clock and of the database.
abbrev pub latest_state : List (Event Answer) → Option EscrowState
latest_state [] = none
latest_state (did (get_withdrawal_state _) (returned state) ∷ _) = some state
latest_state (did _ _ ∷ calls) = latest_state calls

abbrev pub latest_time : List (Event Answer) → Option ℕ
latest_time [] = none
latest_time (did now (returned time) ∷ _) = some time
latest_time (did _ _ ∷ calls) = latest_time calls

abbrev pub latest_status : List (Event Answer) → Option ProgramStatus
latest_status [] = none
latest_status (did (get_program_status _) (returned status) ∷ _) = status
latest_status (did _ _ ∷ calls) = latest_status calls

-- What a creation rests on: an ended program, no outstanding reward, a passed unlock time, and the
-- whole balance, which is positive.
abbrev pub Allows : Option EscrowState → Option ℕ → Option ProgramStatus → ℕ → ℕ → Type 0
Allows (some state) (some time) status amount withdrawn =
    (has_ended status ≡ true)
    × (state.refund_unlock_at ≤ time / 1000)
    × (state.total_approved_outstanding ≡ 0)
    × (0 < amount)
    × (amount ≡ state.balance)
    × (withdrawn ≡ state.total_withdrawn)
Allows _ _ _ amount withdrawn = ⊥

-- Every withdrawal was created under the latest answers.
abbrev pub IsAllowed : List (Event Answer) → Type 0
IsAllowed [] = Unit
IsAllowed (did (create_intent i) _ ∷ calls) =
    Allows (latest_state calls) (latest_time calls) (latest_status calls) i.amount
      i.pre_total_withdrawn
    × IsAllowed calls
IsAllowed (did _ _ ∷ calls) = IsAllowed calls

abbrev AllAllowed : Session Answer → Type 0
AllAllowed s = IsAllowed s.calls

-- The program has ended.
abbrev Ended : Session Answer → Type 0
Ended s = IsAllowed s.calls × (has_ended (latest_status s.calls) ≡ true)

-- The state was just read.
abbrev Read : EscrowState → Session Answer → Type 0
Read state s = Ended s × (latest_state s.calls ≡ some state)

-- A withdrawal of the state's balance is allowed.
abbrev Ready : EscrowState → Session Answer → Type 0
Ready state s =
    IsAllowed s.calls
    × Allows (latest_state s.calls) (latest_time s.calls) (latest_status s.calls) state.balance
        state.total_withdrawn

module _ (env : Environment Answer) (p : Principal) (program_id : String) where
  ended_escrow-Ended :
      (given : CreateInput)
      → Triple AllAllowed (ended_escrow env p program_id given) (λ _. Ended) AllAllowed
  unfolding ended_escrow
  ended_escrow-Ended given = record { at = λ s h. ground arith }

  record_batches-Ended :
      (escrow : EscrowRow) (scan : LateFundingScan) (bs : List (List LateFunding))
      → Triple Ended (record_batches env p program_id escrow scan bs) (λ _. Ended) AllAllowed
  unfolding record_batches record_batch
  record_batches-Ended escrow scan [] = record { at = λ s h. h }
  record_batches-Ended escrow scan (b ∷ bs) =
      Triple-bind (λ _. Ended) (record { at = λ s h. ground arith })
        (λ _. record_batches-Ended escrow scan bs)

  record_batch-Ended :
      (escrow : EscrowRow) (scan : LateFundingScan) (events : List LateFunding) (advance : Bool)
      → Triple Ended
          (record_batch env p program_id escrow scan events advance)
          (λ _. Ended)
          AllAllowed
  unfolding record_batch
  record_batch-Ended escrow scan events advance = record { at = λ s h. ground arith }

  scan-Ended :
      (address : String) (from : ℕ)
      → Triple Ended (perform env (find_late_funding address from)) (λ _. Ended) AllAllowed
  scan-Ended address from = record { at = λ s h. ground arith }

  state-Read :
      (address : String) → Triple Ended (perform env (get_withdrawal_state address)) Read AllAllowed
  state-Read address = record { at = λ s h. ground arith }

  read_state-Read :
      (escrow : EscrowRow) → Triple Ended (read_state env p program_id escrow) Read AllAllowed
  unfolding read_state
  read_state-Read escrow =
      Triple-bind (λ _. Ended) (scan-Ended escrow.contract_address (scan_from escrow))
        λ scan.
          Triple-bind (λ _. Ended)
            (record_batches-Ended escrow scan (batches (length scan.events) scan.events))
            λ _.
              Triple-bind (λ _. Ended) (record_batch-Ended escrow scan [] true)
                (λ _. state-Read escrow.contract_address)

  check_state-Ready :
      (columns : Columns) (state : EscrowState)
      → Triple (Read state) (check_state env columns state) Ready AllAllowed
  unfolding check_state
  check_state-Ready columns state = record { at = λ s h. ground arith }

  prepare_creation-Ready :
      (given : CreateInput)
      → Triple AllAllowed (prepare_creation env p program_id given) Ready AllAllowed
  unfolding prepare_creation
  prepare_creation-Ready given =
      Triple-bind (λ _. Ended) (ended_escrow-Ended given)
        λ checked.
          Triple-bind Read
            (Triple-catch AllAllowed (read_state-Read checked.0) (λ e. record { at = λ s h. h }))
            (check_state-Ready checked.1)

  create_from-AllAllowed :
      (replaces : Option String) (given : CreateInput)
      → Triple AllAllowed (create_from env p program_id replaces given) (λ _. AllAllowed) AllAllowed
  unfolding create_from
  create_from-AllAllowed replaces given =
      Triple-bind Ready (prepare_creation-Ready given)
        (λ state. record { at = λ s h. ground arith })

  owner-AllAllowed :
      Triple AllAllowed (require_owner (owns env) p program_id) (λ _. AllAllowed) AllAllowed
  unfolding require_owner owns
  owner-AllAllowed = record { at = λ s h. ground arith }

  failed-AllAllowed :
      (id : String)
      → Triple AllAllowed (failed_intent env program_id id) (λ _. AllAllowed) AllAllowed
  unfolding failed_intent
  failed-AllAllowed id = record { at = λ s h. ground arith }

  create_replacement-AllAllowed :
      (id : String) (given : CreateInput)
      → Triple AllAllowed
          (create_replacement env p program_id id given)
          (λ _. AllAllowed)
          AllAllowed
  unfolding create_replacement
  create_replacement-AllAllowed id given =
      Triple-bind (λ _. AllAllowed) owner-AllAllowed
        λ _.
          Triple-bind (λ _. AllAllowed) (failed-AllAllowed id)
            (λ _. create_from-AllAllowed (some id) given)

  parts-AllAllowed : KeptByParts env AllAllowed
  unfolding owned_intent owner_wallet_of confirm_closed confirm_withdrawn on_failure
  parts-AllAllowed = record {
    owned = λ q pid id. record { at = λ s h. ground arith };
    wallet = λ pid row. record { at = λ s h. ground arith };
    closed = λ pid id escrow wallet row. record { at = λ s h. ground arith };
    withdrawn = λ pid id escrow row. record { at = λ s h. ground arith };
    failure = λ id row e. record { at = λ s h. ground arith };
  }

  serve-AllAllowed :
      (request : Request)
      → Triple AllAllowed (serve env p program_id request) (λ _. AllAllowed) AllAllowed
  unfolding serve create active get observe
  serve-AllAllowed (create_request given) = create_from-AllAllowed none given
  serve-AllAllowed (replacement_request id given) = create_replacement-AllAllowed id given
  serve-AllAllowed active_request = record { at = λ s h. ground arith }
  serve-AllAllowed (get_request id) = record { at = λ s h. ground arith }
  serve-AllAllowed (observe_request id seen) = record { at = λ s h. ground arith }
  serve-AllAllowed (reconcile_request id) = reconcile-Keeps env parts-AllAllowed program_id id p

-- Whatever route of the withdrawal is called and whatever the answers, a withdrawal is created
-- only if, by the latest answers, the program has ended, the unlock time of the escrow has passed,
-- and no approved reward is outstanding; it is then created for the whole balance of the escrow,
-- which is positive, and with the escrow's total of earlier withdrawals.
pub serve-IsAllowed :
    (env : Environment Answer) (p : Principal) (program_id : String) (request : Request)
    (s : Session Answer)
    → IsAllowed s.calls
    → IsAllowed (serve env p program_id request s).1.calls
serve-IsAllowed env p program_id request s h =
    Triple-either (serve env p program_id request) (serve-AllAllowed env p program_id request) s h
