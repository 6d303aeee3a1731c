-- ===== src/Withdrawal/Service/Methods/Access.antt =====
-- Who reaches the withdrawals.
use bug_bounty_escrow.Prelude.{suc, String, true, false, ◌∷◌, ◌≡◌}
use bug_bounty_escrow.Effect.{forbidden, not_found, returned, raised, did, Session, Environment}
use bug_bounty_escrow.Access.{Principal, is_owner, require_owner}
use bug_bounty_escrow.Withdrawal.{Answer, is_program_owner}
use bug_bounty_escrow.Withdrawal.Service.{owns, ended_escrow, prepare_creation, create_from, create}
use bug_bounty_escrow.Withdrawal.Service.Methods.{
  create_replacement, active, get, observe, owned_intent, reconcile, Request, create_request,
  replacement_request, active_request, get_request, observe_request, reconcile_request, serve,
}

routes : Unit {0}
unfolding serve create create_from prepare_creation ended_escrow create_replacement active get
    observe reconcile owned_intent owns require_owner
routes = tt

-- For a principal without the role of an owner every withdrawal route is forbidden, and nothing is
-- called.
pub serve_forbidden :
    (env : Environment Answer) (p : Principal) (program_id : String) (request : Request)
    (s : Session Answer)
    → is_owner p.role ≡ false
    → serve env p program_id request s ≡ (raised forbidden, s)
unfolding routes
serve_forbidden env p program_id (create_request given) s h = rw h
serve_forbidden env p program_id (replacement_request id given) s h = rw h
serve_forbidden env p program_id active_request s h = rw h
serve_forbidden env p program_id (get_request id) s h = rw h
serve_forbidden env p program_id (observe_request id seen) s h = rw h
serve_forbidden env p program_id (reconcile_request id) s h = rw h

-- For an owner of whom the database says that the program is not theirs, every withdrawal route
-- answers that nothing is found, after that one question to the database.
pub serve_foreign :
    (env : Environment Answer) (p : Principal) (program_id : String) (request : Request)
    (s : Session Answer)
    → is_owner p.role ≡ true
    → env s.count (is_program_owner program_id p.user_id) ≡ returned false
    → serve env p program_id request s ≡ (
      raised not_found,
      record {
        count = suc s.count;
        calls = did (is_program_owner program_id p.user_id) (returned false) ∷ s.calls;
      },
    )
unfolding routes
serve_foreign env p program_id (create_request given) s h e = rw (h, e)
serve_foreign env p program_id (replacement_request id given) s h e = rw (h, e)
serve_foreign env p program_id active_request s h e = rw (h, e)
serve_foreign env p program_id (get_request id) s h e = rw (h, e)
serve_foreign env p program_id (observe_request id seen) s h e = rw (h, e)
serve_foreign env p program_id (reconcile_request id) s h e = rw (h, e)
