-- ===== src/Settlement/Service/Methods/Authority.antt =====
-- Who may make the settlement service write.
use bug_bounty_escrow.Prelude.{
  String, Bool, true, false, List, [], ◌∷◌, Option, none, some, ◌≡◌, ◌⊎◌, arith,
}
use bug_bounty_escrow.Effect.{returned, Event, did, Session, Environment, Action, ◌>>=◌}
use bug_bounty_escrow.Effect.Triples.{Triple, Triple-bind, Triple-weaken, Triple-either}
use bug_bounty_escrow.Access.{Principal, owner}
use bug_bounty_escrow.Settlement.{
  IntentRow, Op, Answer, ApprovalOutcome, CreateInput, create_intent, is_program_owner,
  observe_approval, confirm_approval, observe_external_payout, confirm_payout, prepare_relay,
  accept_relay, attach_hash, fail_operation, cancel_intent, submit_payout,
}
use bug_bounty_escrow.Settlement.Service.{
  require_intent, recover_approval, confirm_submitted, find_existing, relay_payout,
}
use bug_bounty_escrow.Settlement.Service.Methods.{
  refreshed, track_payout, reconcile, current, observe, create, cancel, Request, create_request,
  current_request, observe_request, reconcile_request, cancel_request, serve,
}
use bug_bounty_escrow.Settlement.Service.Methods.Keeps.{Keeps, KeptByParts, reconcile_row-Keeps}

-- The calls that change the database or move money.
abbrev pub is_write : Op → Bool
is_write (create_intent _) = true
is_write (observe_approval _ _ _ _) = true
is_write (confirm_approval _ _) = true
is_write (observe_external_payout _ _) = true
is_write (confirm_payout _ _) = true
is_write (prepare_relay _ _) = true
is_write (accept_relay _ _ _) = true
is_write (attach_hash _ _ _) = true
is_write (fail_operation _ _ _) = true
is_write (cancel_intent _ _) = true
is_write (submit_payout _ _ _) = true
is_write _ = false

-- The database confirmed that the user owns a program.
abbrev pub Confirmed : String → List (Event Answer) → Type 0
Confirmed user [] = ⊥
Confirmed user (did (is_program_owner _ asked) (returned true) ∷ calls) =
    (asked ≡ user) ⊎ Confirmed user calls
Confirmed user (did _ _ ∷ calls) = Confirmed user calls

-- Every write was made for a user with the role of an owner, whom the database had confirmed.
abbrev pub IsAuthorised : Principal → List (Event Answer) → Type 0
IsAuthorised p [] = Unit
IsAuthorised p (did o _ ∷ calls) =
    (is_write o ≡ true → (p.role ≡ owner) × Confirmed p.user_id calls) × IsAuthorised p calls

-- Once it is confirmed, the rest of a method may write.
abbrev MayWrite : Principal → Session Answer → Type 0
MayWrite p s = IsAuthorised p s.calls × (p.role ≡ owner) × Confirmed p.user_id s.calls

abbrev HasAuthority : Principal → Session Answer → Type 0
HasAuthority p s = IsAuthorised p s.calls

module _ (env : Environment Answer) (p : Principal) where
  parts-MayWrite : KeptByParts env p (MayWrite p)
  unfolding recover_approval confirm_submitted find_existing relay_payout track_payout refreshed
  parts-MayWrite = record {
    address = λ row. record { at = λ s h. ground arith };
    recovery = λ a row. record { at = λ s h. ground arith };
    verification = λ a row. record { at = λ s h. ground arith };
    existing = λ a row. record { at = λ s h. ground arith };
    relay = λ a row. record { at = λ s h. ground arith };
    tracking = λ a row. record { at = λ s h. ground arith };
    ending = λ id. record { at = λ s h. ground arith };
  }

  require_intent-MayWrite :
      (report_id : String) (id : Option String)
      → Triple
          (HasAuthority p)
          (require_intent env p report_id id)
          (λ _. MayWrite p)
          (HasAuthority p)
  unfolding require_intent
  require_intent-MayWrite report_id none = record { at = λ s h. ground arith }
  require_intent-MayWrite report_id (some id) = record { at = λ s h. ground arith }

  MayWrite-HasAuthority : (s : Session Answer) → MayWrite p s → HasAuthority p s
  MayWrite-HasAuthority s h = h.0

  require_intent-Keeps :
      (report_id : String) (id : Option String)
      → Keeps (MayWrite p) (require_intent env p report_id id)
  unfolding require_intent
  require_intent-Keeps report_id none = record { at = λ s h. ground arith }
  require_intent-Keeps report_id (some id) = record { at = λ s h. ground arith }

  reconcile-Keeps :
      (report_id intent_id : String) → Keeps (MayWrite p) (reconcile env p report_id intent_id)
  unfolding reconcile
  reconcile-Keeps report_id intent_id =
      Triple-bind (λ _. MayWrite p) (require_intent-Keeps report_id (some intent_id))
        (reconcile_row-Keeps env p parts-MayWrite)

  -- A method that asks for the intent, and then keeps `MayWrite`.
  guarded :
      (report_id : String) (id : Option String) {f : IntentRow → Action Answer IntentRow}
      → ((row : IntentRow) → Keeps (MayWrite p) (f row))
      → Keeps (HasAuthority p) (require_intent env p report_id id >>= f)
  guarded report_id id k =
      Triple-bind (λ _. MayWrite p) (require_intent-MayWrite report_id id)
        (λ row. Triple-weaken (k row) (λ _. MayWrite-HasAuthority) MayWrite-HasAuthority)

  observe-Keeps :
      (report_id intent_id : String) (outcome : ApprovalOutcome) (hash : Option String)
      → Keeps (HasAuthority p) (observe env p report_id intent_id outcome hash)
  unfolding observe
  observe-Keeps report_id intent_id ApprovalOutcome.submitted hash =
      guarded report_id (some intent_id) λ row.
        Triple-bind (λ _. MayWrite p) (record { at = λ s h. ground arith })
          (λ _. reconcile-Keeps report_id intent_id)
  observe-Keeps report_id intent_id ApprovalOutcome.submission_uncertain hash =
      guarded report_id (some intent_id) (λ row. record { at = λ s h. ground arith })

  cancel-Keeps :
      (report_id intent_id : String) → Keeps (HasAuthority p) (cancel env p report_id intent_id)
  unfolding cancel
  cancel-Keeps report_id intent_id =
      guarded report_id (some intent_id) (λ row. record { at = λ s h. ground arith })

  create-Keeps :
      (key : String → String → String) (report_id : String) (given : CreateInput)
      → Keeps (HasAuthority p) (create env key p report_id given)
  unfolding create
  create-Keeps key report_id given = record { at = λ s h. ground arith }

  serve-Keeps :
      (key : String → String → String) (report_id : String) (request : Request)
      → Keeps (HasAuthority p) (serve env key p report_id request)
  unfolding serve current reconcile
  serve-Keeps key report_id (create_request given) = create-Keeps key report_id given
  serve-Keeps key report_id current_request =
      Triple-weaken (require_intent-MayWrite report_id none) (λ _. MayWrite-HasAuthority) (λ s h. h)
  serve-Keeps key report_id (observe_request id outcome hash) =
      observe-Keeps report_id id outcome hash
  serve-Keeps key report_id (reconcile_request id) =
      guarded report_id (some id) (reconcile_row-Keeps env p parts-MayWrite)
  serve-Keeps key report_id (cancel_request id) = cancel-Keeps report_id id

-- Whatever route of the settlement is called and whatever the answers, each write to the database
-- and each payout handed over is made for a principal with the role of an owner, after the
-- database confirmed that this user owns a program.
pub serve-IsAuthorised :
    (env : Environment Answer) (key : String → String → String) (p : Principal) (report_id : String)
    (request : Request) (s : Session Answer)
    → IsAuthorised p s.calls
    → IsAuthorised p (serve env key p report_id request s).1.calls
serve-IsAuthorised env key p report_id request s h =
    Triple-either (serve env key p report_id request) (serve-Keeps env p key report_id request) s h
