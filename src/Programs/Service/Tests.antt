-- ===== src/Programs/Service/Tests.antt =====
-- A transaction and a logo in a scripted world, and the theorem at them.
use bug_bounty_escrow.Prelude.{true, false, none, some, []}
use bug_bounty_escrow.Effect.{returned, fresh, Environment}
use bug_bounty_escrow.Access.{Role, Principal}
use bug_bounty_escrow.Programs.{
  Answer, list_public, list_owned, find_accessible, find_accessible_by_slug, find_owned, insert,
  is_owner, is_assigned_reviewer, find_reviewers, sign_logo_upload, now, find_transactions,
  find_transaction,
}
use bug_bounty_escrow.Programs.Service.{serve, one_transaction}
use bug_bounty_escrow.Programs.Service.Permissions.{IsPermitted, IsShownBy, serve-IsPermitted}

-- The reviewer is assigned, and owns nothing.
abbrev world : Environment Answer
world n (list_public _) = returned ([], 0)
world n (list_owned _ _) = returned ([], 0)
world n (find_accessible _ _) = returned (some "program")
world n (find_accessible_by_slug _ _) = returned (some "program")
world n (find_owned _ _) = returned none
world n (insert _ _) = returned "program"
world n (is_owner _ _) = returned false
world n (is_assigned_reviewer _ _) = returned true
world n (find_reviewers _) = returned []
world n (sign_logo_upload _ _) = returned ("path", "url")
world n now = returned 1000
world n (find_transactions _ _ _) = returned ([], 0)
world n (find_transaction _) = returned (some (record { program_id = "program"; rest = "0xt1" }))
world n _ = returned tt

abbrev vera : Principal
vera = record { user_id = "vera"; role = Role.reviewer }

serve-IsPermitted_example :
    IsPermitted vera (serve world vera (one_transaction "0xt1") (fresh Answer)).1.calls
    × IsShownBy vera
        (serve world vera (one_transaction "0xt1") (fresh Answer)).0
        (serve world vera (one_transaction "0xt1") (fresh Answer)).1.calls
serve-IsPermitted_example = serve-IsPermitted world vera (one_transaction "0xt1") (fresh Answer) tt
