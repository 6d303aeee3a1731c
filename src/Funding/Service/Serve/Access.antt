-- ===== src/Funding/Service/Serve/Access.antt =====
-- Who reaches the funding.
use bug_bounty_escrow.Prelude.{suc, String, true, false, ◌∷◌, ◌≡◌}
use bug_bounty_escrow.Effect.{forbidden, not_found, returned, raised, did, Session, Environment}
use bug_bounty_escrow.Access.{Principal, is_owner, require_owner}
use bug_bounty_escrow.Funding.{Answer, is_program_owner}
use bug_bounty_escrow.Funding.Service.{owns, owned_intent, fundable_escrow, create, active}
use bug_bounty_escrow.Funding.Service.Deposits.{reconcile_deposit, attach}
use bug_bounty_escrow.Funding.Service.Reconciliation.{Timeouts, reconcile_funding}
use bug_bounty_escrow.Funding.Service.Routes.{get_readiness, make, refresh}
use bug_bounty_escrow.Funding.Service.Routes.Reads.{get_history, get_latest_confirmation}
use bug_bounty_escrow.Funding.Service.Routes.Recovery.{check_recovery}
use bug_bounty_escrow.Funding.Service.Serve.{
  Request, create_request, active_request, get_request, refresh_request, prepare_request,
  reopen_request, claim_request, arm_request, arm_bridge_request, make_request, release_request,
  replace_request, recovery_request, create_deposit_request, arm_deposit_request,
  attach_deposit_request, reconcile_deposit_request, observe_request, reconcile_request,
  from_intent, serve, Route, intent_route, readiness_route, history_route, confirmation_route,
  respond,
}

routes : Unit {0}
unfolding serve create fundable_escrow active make refresh from_intent check_recovery
    reconcile_deposit attach reconcile_funding owned_intent owns require_owner get_readiness
    get_history get_latest_confirmation
routes = tt

intent-forbidden :
    (env : Environment Answer) (t : Timeouts) (p : Principal) (program_id : String)
    (request : Request) (s : Session Answer)
    → is_owner p.role ≡ false
    → serve env t p program_id request s ≡ (raised forbidden, s)
unfolding routes
intent-forbidden env t p pid (create_request given) s h = rw h
intent-forbidden env t p pid active_request s h = rw h
intent-forbidden env t p pid (get_request id) s h = rw h
intent-forbidden env t p pid (refresh_request id reserve given quoted expires) s h = rw h
intent-forbidden env t p pid (prepare_request id) s h = rw h
intent-forbidden env t p pid (reopen_request id) s h = rw h
intent-forbidden env t p pid (claim_request id key) s h = rw h
intent-forbidden env t p pid (arm_request id token) s h = rw h
intent-forbidden env t p pid (arm_bridge_request id op token) s h = rw h
intent-forbidden env t p pid (make_request id what) s h = rw h
intent-forbidden env t p pid (release_request id op token) s h = rw h
intent-forbidden env t p pid (replace_request id) s h = rw h
intent-forbidden env t p pid (recovery_request id op hash) s h = rw h
intent-forbidden env t p pid (create_deposit_request id network) s h = rw h
intent-forbidden env t p pid (arm_deposit_request id deposit token) s h = rw h
intent-forbidden env t p pid (attach_deposit_request id deposit hash) s h = rw h
intent-forbidden env t p pid (reconcile_deposit_request id deposit) s h = rw h
intent-forbidden env t p pid (observe_request id given) s h = rw h
intent-forbidden env t p pid (reconcile_request id) s h = rw h

-- For a principal without the role of an owner every funding route is forbidden, the readiness, the
-- history and the latest confirmation included, and nothing is called.
pub funding_forbidden :
    (env : Environment Answer) (t : Timeouts) (p : Principal) (program_id : String) (r : Route)
    (s : Session Answer)
    → is_owner p.role ≡ false
    → respond env t p program_id r s ≡ (raised forbidden, s)
unfolding routes respond
funding_forbidden env t p pid (intent_route request) s h = intent-forbidden env t p pid request s h
funding_forbidden env t p pid (readiness_route id) s h = rw h
funding_forbidden env t p pid (history_route id query) s h = rw h
funding_forbidden env t p pid confirmation_route s h = rw h

-- For an owner of whom the database says that the program is not theirs, every route
-- that returns an intent answers that nothing is found, after that one question to the database.
pub funding_foreign :
    (env : Environment Answer) (t : Timeouts) (p : Principal) (program_id : String)
    (request : Request) (s : Session Answer)
    → is_owner p.role ≡ true
    → env s.count (is_program_owner program_id p.user_id) ≡ returned false
    → serve env t p program_id request s ≡ (
      raised not_found,
      record {
        count = suc s.count;
        calls = did (is_program_owner program_id p.user_id) (returned false) ∷ s.calls;
      },
    )
unfolding routes
funding_foreign env t p pid (create_request given) s h e = rw (h, e)
funding_foreign env t p pid active_request s h e = rw (h, e)
funding_foreign env t p pid (get_request id) s h e = rw (h, e)
funding_foreign env t p pid (refresh_request id reserve given quoted expires) s h e = rw (h, e)
funding_foreign env t p pid (prepare_request id) s h e = rw (h, e)
funding_foreign env t p pid (reopen_request id) s h e = rw (h, e)
funding_foreign env t p pid (claim_request id key) s h e = rw (h, e)
funding_foreign env t p pid (arm_request id token) s h e = rw (h, e)
funding_foreign env t p pid (arm_bridge_request id op token) s h e = rw (h, e)
funding_foreign env t p pid (make_request id what) s h e = rw (h, e)
funding_foreign env t p pid (release_request id op token) s h e = rw (h, e)
funding_foreign env t p pid (replace_request id) s h e = rw (h, e)
funding_foreign env t p pid (recovery_request id op hash) s h e = rw (h, e)
funding_foreign env t p pid (create_deposit_request id network) s h e = rw (h, e)
funding_foreign env t p pid (arm_deposit_request id deposit token) s h e = rw (h, e)
funding_foreign env t p pid (attach_deposit_request id deposit hash) s h e = rw (h, e)
funding_foreign env t p pid (reconcile_deposit_request id deposit) s h e = rw (h, e)
funding_foreign env t p pid (observe_request id given) s h e = rw (h, e)
funding_foreign env t p pid (reconcile_request id) s h e = rw (h, e)
