-- ===== src/Programs/Service/Permissions.antt =====
-- Who may do what with a program.
use bug_bounty_escrow.Prelude.{String, true, Option, none, some, List, [], ◌∷◌, ◌≡◌, ◌⊎◌, arith}
use bug_bounty_escrow.Effect.{
  Outcome, not_found, returned, raised, Event, did, Session, Environment, Action, perform, pure,
  require, ◌>>=◌, ◌>>◌,
}
use bug_bounty_escrow.Effect.Triples.{Post, Triple, Triple-bind}
use bug_bounty_escrow.Access.{Role, Principal, same_role}
use bug_bounty_escrow.Programs.{
  Transaction, Answer, insert, change, record_deployment, add_funds, set_published, set_status,
  is_owner, is_assigned_reviewer, find_reviewers, add_reviewer, drop_reviewer, sign_logo_upload,
  find_transactions, find_transaction,
}
use bug_bounty_escrow.Programs.Service.{
  Request, Reply, transaction, require_role, require_assigned, require_review_access, get,
  list_owned_programs, get_with_slug, get_owned, create, update, deploy_program_escrow, fund,
  publish, set_program_status, list_reviewers, assign_reviewer, remove_reviewer, create_logo_upload,
  list_transactions, get_transaction, serve, owned_list, get_one, get_by_slug, get_own, create_one,
  update_one, deploy_escrow, fund_one, publish_one, change_status, reviewers, assign, remove,
  logo_upload, transactions, one_transaction,
}

-- An answer said that the principal owns the program or reviews it, or the database took a change of
-- its reviewers from the principal.
abbrev pub HasAccess : Principal → String → List (Event Answer) → Type 0
HasAccess p id [] = ⊥
HasAccess p id (did (is_owner i u) (returned true) ∷ calls) =
    ((i ≡ id) × (u ≡ p.user_id)) ⊎ HasAccess p id calls
HasAccess p id (did (is_assigned_reviewer i q) (returned true) ∷ calls) =
    ((i ≡ id) × (q.user_id ≡ p.user_id)) ⊎ HasAccess p id calls
HasAccess p id (did (add_reviewer u i _) (returned _) ∷ calls) =
    ((i ≡ id) × (u ≡ p.user_id)) ⊎ HasAccess p id calls
HasAccess p id (did (drop_reviewer u i _) (returned _) ∷ calls) =
    ((i ≡ id) × (u ≡ p.user_id)) ⊎ HasAccess p id calls
HasAccess p id (did _ _ ∷ calls) = HasAccess p id calls

-- A change in the name of this user.
abbrev pub IsOwners : Principal → String → Type 0
IsOwners p user = (p.role ≡ Role.owner) × (user ≡ p.user_id)

-- Every change is the owner's, and what only the program's side may see was read after an answer said
-- that the principal is on it.
abbrev pub IsPermitted : Principal → List (Event Answer) → Type 0
IsPermitted p [] = Unit
IsPermitted p (did (insert user _) _ ∷ calls) = IsOwners p user × IsPermitted p calls
IsPermitted p (did (change user _ _) _ ∷ calls) = IsOwners p user × IsPermitted p calls
IsPermitted p (did (record_deployment user _ _) _ ∷ calls) = IsOwners p user × IsPermitted p calls
IsPermitted p (did (add_funds user _ _) _ ∷ calls) = IsOwners p user × IsPermitted p calls
IsPermitted p (did (set_published user _) _ ∷ calls) = IsOwners p user × IsPermitted p calls
IsPermitted p (did (set_status user _ _) _ ∷ calls) = IsOwners p user × IsPermitted p calls
IsPermitted p (did (add_reviewer user _ _) _ ∷ calls) = IsOwners p user × IsPermitted p calls
IsPermitted p (did (drop_reviewer user _ _) _ ∷ calls) = IsOwners p user × IsPermitted p calls
IsPermitted p (did (sign_logo_upload id _) _ ∷ calls) =
    (p.role ≡ Role.owner) × (HasAccess p id calls × IsPermitted p calls)
IsPermitted p (did (find_reviewers id) _ ∷ calls) = HasAccess p id calls × IsPermitted p calls
IsPermitted p (did (find_transactions id _ _) _ ∷ calls) =
    HasAccess p id calls × IsPermitted p calls
IsPermitted p (did _ _ ∷ calls) = IsPermitted p calls

-- A transaction is shown only to its program's side.
abbrev pub IsShown : Principal → Reply → List (Event Answer) → Type 0
IsShown p (transaction row) calls = HasAccess p row.program_id calls
IsShown p _ calls = Unit

abbrev pub IsShownBy : Principal → Outcome Reply → List (Event Answer) → Type 0
IsShownBy p (returned reply) calls = IsShown p reply calls
IsShownBy p (raised _) calls = Unit

owner_role : (r : Role) → same_role r Role.owner ≡ true → r ≡ Role.owner
owner_role r e = ground arith

module _ (env : Environment Answer) (p : Principal) where
  abbrev Fine : Session Answer → Type 0
  Fine s = IsPermitted p s.calls

  abbrev Good : Reply → Session Answer → Type 0
  Good reply s = IsShown p reply s.calls × Fine s

  abbrev Owner : Session Answer → Type 0
  Owner s = (p.role ≡ Role.owner) × Fine s

  abbrev OnSide : String → Session Answer → Type 0
  OnSide id s = HasAccess p id s.calls × Fine s

  role-Owner : Triple Fine (require_role env p) (λ _. Owner) Fine
  unfolding require_role
  role-Owner = record { at = λ s z. ground (arith, owner_role p.role) }

  review_access-OnSide :
      (id : String) → Triple Fine (require_review_access env p id) (λ _. OnSide id) Fine
  unfolding require_review_access require_assigned
  review_access-OnSide id = record { at = λ s z. ground arith }

  get-Good : (id : String) → Triple Fine (get env id (some p)) Good Fine
  unfolding get
  get-Good id = record { at = λ s z. ground arith }

  find-Fine : (hash : String) → Triple Fine (perform env (find_transaction hash)) (λ _. Fine) Fine
  find-Fine hash = record { at = λ s z. ground arith }

  require-Fine :
      (found : Option Transaction) → Triple Fine (require found not_found) (λ _. Fine) Fine
  require-Fine none = record { at = λ s z. z }
  require-Fine (some row) = record { at = λ s z. z }

  shown-Good :
      (row : Transaction) → Triple (OnSide row.program_id) (pure (transaction row)) Good Fine
  shown-Good row = record { at = λ s z. z }

  -- A change, and the program read anew.
  change-Good :
      {A : Type 0} (m : Action Answer A) (k : A → Action Answer Reply)
      → Triple Owner m (λ _. Fine) Fine
      → ((a : A) → Triple Fine (k a) Good Fine)
      → Triple Fine (require_role env p >> (m >>= k)) Good Fine
  change-Good m k t u = Triple-bind (λ _. Owner) role-Owner (λ _. Triple-bind (λ _. Fine) t u)

  serve-Good : (r : Request) → Triple Fine (serve env p r) Good Fine
  unfolding serve list_owned_programs get_with_slug get_owned create update deploy_program_escrow
      fund publish set_program_status list_reviewers assign_reviewer remove_reviewer
      create_logo_upload list_transactions get_transaction
  serve-Good (owned_list query) =
      Triple-bind (λ _. Owner) role-Owner (λ _. record { at = λ s z. ground arith })
  serve-Good (get_one id) = get-Good id
  serve-Good (get_by_slug slug) = record { at = λ s z. ground arith }
  serve-Good (get_own id) =
      Triple-bind (λ _. Owner) role-Owner (λ _. record { at = λ s z. ground arith })
  serve-Good (create_one input) = change-Good _ _ (record { at = λ s z. ground arith }) get-Good
  serve-Good (update_one id input) =
      change-Good _ _ (record { at = λ s z. ground arith }) (λ _. get-Good id)
  serve-Good (deploy_escrow id input) =
      change-Good _ _ (record { at = λ s z. ground arith }) (λ _. get-Good id)
  serve-Good (fund_one id input) =
      change-Good _ _ (record { at = λ s z. ground arith }) (λ _. get-Good id)
  serve-Good (publish_one id) =
      change-Good _ _ (record { at = λ s z. ground arith }) (λ _. get-Good id)
  serve-Good (change_status id status) =
      change-Good _ _ (record { at = λ s z. ground arith }) (λ _. get-Good id)
  serve-Good (reviewers id) =
      Triple-bind (λ _. OnSide id) (review_access-OnSide id)
        (λ _. record { at = λ s z. ground arith })
  serve-Good (assign id reviewer) =
      Triple-bind (λ _. Owner) role-Owner (λ _. record { at = λ s z. ground arith })
  serve-Good (remove id reviewer) =
      Triple-bind (λ _. Owner) role-Owner (λ _. record { at = λ s z. ground arith })
  serve-Good (logo_upload id input) =
      Triple-bind (λ _. Owner) role-Owner (λ _. record { at = λ s z. ground arith })
  serve-Good (transactions id page limit) =
      Triple-bind (λ _. OnSide id) (review_access-OnSide id)
        (λ _. record { at = λ s z. ground arith })
  serve-Good (one_transaction hash) =
      Triple-bind (λ _. Fine) (find-Fine hash)
        λ found.
          Triple-bind (λ _. Fine) (require-Fine found)
            λ row.
              Triple-bind (λ _. OnSide row.program_id) (review_access-OnSide row.program_id)
                (λ _. shown-Good row)

reply_lem :
    (env : Environment Answer) (p : Principal) (o : Outcome Reply) (s : Session Answer)
    → Post (Good env p) (Fine env p) o s
    → IsPermitted p s.calls × IsShownBy p o s.calls
reply_lem env p (returned reply) s z = (z.1, z.0)
reply_lem env p (raised e) s z = (z, tt)

-- Whatever the answers, a route makes a change of a program only for a principal in the role of an
-- owner and in its name; it reads reviewers and transactions of a program, signs an upload of its
-- logo, and shows a transaction only after an answer said that the principal owns the program or
-- reviews it, or after the database took a change of its reviewers from the principal.
pub serve-IsPermitted :
    (env : Environment Answer) (p : Principal) (r : Request) (s : Session Answer)
    → IsPermitted p s.calls
    → IsPermitted p (serve env p r s).1.calls
      × IsShownBy p (serve env p r s).0 (serve env p r s).1.calls
serve-IsPermitted env p r s z =
    reply_lem env p (serve env p r s).0 (serve env p r s).1 ((serve-Good env p r).at s z)
