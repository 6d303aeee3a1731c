-- ===== src/Reports/Service/Permissions.antt =====
-- Who may do what with a report, and what its hash is.
use bug_bounty_escrow.Prelude.{
  String, Bool, true, ◌||◌, Option, none, some, List, [], ◌∷◌, ◌≡◌, arith, if◌then◌else◌,
}
use bug_bounty_escrow.Effect.{
  unavailable, returned, Event, did, Session, Environment, Action, perform, throw, ◌>>=◌, ◌>>◌,
}
use bug_bounty_escrow.Effect.Triples.{
  Triple, Triple-bind, Triple-either, Triple-frame, Triple-weaken,
}
use bug_bounty_escrow.Access.{Role, Principal}
use bug_bounty_escrow.Reports.Hash.{Content, content_hash}
use bug_bounty_escrow.Reports.{
  Report, Patch, Answer, find_accessible, retry_review, insert_report, change_report,
  set_payout_wallet, request_information, validate, reject, mark_duplicate, reopen, send_back,
  decide,
}
use bug_bounty_escrow.Reports.Service.{
  ReviewAction, approve, confirm_payment, pay, duplicate, information, reject_report,
  validate_report, merge, is_researcher, is_owner, is_reviewer, allow, accessible, with_review, get,
  retry, generate_ai_review, submit, update, update_payout_wallet, act, review, reopen_duplicate,
  send_back_for_review, decide_disclosure, Request, get_one, generate_one, submit_one, update_one,
  wallet_one, review_one, reopen_one, send_back_one, decide_one, serve,
}

-- The report that was read last.
abbrev pub latest_report : List (Event Answer) → Option Report
latest_report [] = none
latest_report (did (find_accessible _ _) (returned report) ∷ _) = report
latest_report (did _ _ ∷ calls) = latest_report calls

-- In the name of a principal of these roles.
abbrev pub IsBy : Principal → Bool → String → Type 0
IsBy p may user = (may ≡ true) × (user ≡ p.user_id)

-- The hash is that of the report that was read last, with the changes.
abbrev pub IsHashed : (Content → String) → Patch → String → Option Report → Type 0
IsHashed digest patch hash none = ⊥
IsHashed digest patch hash (some report) = content_hash digest (merge patch report) ≡ hash

-- The report that was read last, as it was read.
abbrev pub IsCurrent : String → String → String → Option Report → Type 0
IsCurrent id program_id hash none = ⊥
IsCurrent id program_id hash (some report) =
    (report.id ≡ id) × ((report.program_id ≡ program_id) × (report.content_hash ≡ hash))

abbrev may_review : Role → Bool
may_review role = is_owner role || is_reviewer role

-- Every change is made in the name of a principal whose role may make it, and every hash that is
-- stored is that of the content it stands for.
abbrev pub IsAuthored : (Content → String) → Principal → List (Event Answer) → Type 0
IsAuthored d p [] = Unit
IsAuthored d p (did (insert_report user _ input hash) _ ∷ calls) =
    IsBy p (is_researcher p.role || is_owner p.role) user
    × ((content_hash d input ≡ hash) × IsAuthored d p calls)
IsAuthored d p (did (change_report user _ patch hash) _ ∷ calls) =
    IsBy p (is_researcher p.role) user
    × (IsHashed d patch hash (latest_report calls) × IsAuthored d p calls)
IsAuthored d p (did (set_payout_wallet user _ _) _ ∷ calls) =
    IsBy p (is_researcher p.role) user × IsAuthored d p calls
IsAuthored d p (did (retry_review id program_id hash) _ ∷ calls) =
    IsCurrent id program_id hash (latest_report calls) × IsAuthored d p calls
IsAuthored d p (did (request_information q _ _) _ ∷ calls) =
    IsBy p (may_review p.role) q.user_id × IsAuthored d p calls
IsAuthored d p (did (validate q _ _) _ ∷ calls) =
    IsBy p (may_review p.role) q.user_id × IsAuthored d p calls
IsAuthored d p (did (reject q _ _) _ ∷ calls) =
    IsBy p (may_review p.role) q.user_id × IsAuthored d p calls
IsAuthored d p (did (mark_duplicate q _ _) _ ∷ calls) =
    IsBy p (may_review p.role) q.user_id × IsAuthored d p calls
IsAuthored d p (did (reopen q _ _) _ ∷ calls) =
    IsBy p (is_owner p.role) q.user_id × IsAuthored d p calls
IsAuthored d p (did (send_back q _ _) _ ∷ calls) =
    IsBy p (is_owner p.role) q.user_id × IsAuthored d p calls
IsAuthored d p (did (decide q _ _) _ ∷ calls) =
    IsBy p (is_owner p.role) q.user_id × IsAuthored d p calls
IsAuthored d p (did _ _ ∷ calls) = IsAuthored d p calls

module _ (env : Environment Answer) (b : Bool) (d : Content → String) (p : Principal) where
  abbrev Fine : Session Answer → Type 0
  Fine s = IsAuthored d p s.calls

  abbrev May : Bool → Session Answer → Type 0
  May may s = (may ≡ true) × Fine s

  -- The last report read is this one.
  abbrev Read : Report → Session Answer → Type 0
  Read r s = (latest_report s.calls ≡ some r) × Fine s

  allow-May : (may : Bool) → Triple Fine (allow env b d may) (λ _. May may) Fine
  unfolding allow
  allow-May may = record { at = λ s z. ground arith }

  accessible-Read : (id : String) → Triple Fine (accessible env b d p id) Read Fine
  unfolding accessible
  accessible-Read id = record { at = λ s z. ground arith }

  review-Read :
      (r : Report) → Triple (Read r) (with_review env b d p r) (λ detail. Read detail.report) Fine
  unfolding with_review
  review-Read r = record { at = λ s z. ground arith }

  get-Read : (id : String) → Triple Fine (get env b d p id) (λ detail. Read detail.report) Fine
  unfolding get
  get-Read id = Triple-bind Read (accessible-Read id) review-Read

  get-Fine : (id : String) → Triple Fine (get env b d p id) (λ _. Fine) Fine
  get-Fine id = Triple-weaken (get-Read id) (λ a s z. z.1) (λ s z. z)

  -- A change by a role that may make it, and the report read anew.
  change-Fine :
      {A : Type 0} (may : Bool) (m : Action Answer A) (id : A → String)
      → Triple (May may) m (λ _. Fine) Fine
      → Triple Fine (allow env b d may >> (m >>= λ a. get env b d p (id a))) (λ _. Fine) Fine
  change-Fine may m id t =
      Triple-bind (λ _. May may) (allow-May may)
        (λ _. Triple-bind (λ _. Fine) t (λ a. get-Fine (id a)))

  act-Fine :
      (action : ReviewAction) (id input : String)
      → Triple (May (may_review p.role)) (act env b d action p id input) (λ _. Fine) Fine
  unfolding act
  act-Fine information id input = record { at = λ s z. ground arith }
  act-Fine validate_report id input = record { at = λ s z. ground arith }
  act-Fine reject_report id input = record { at = λ s z. ground arith }
  act-Fine duplicate id input = record { at = λ s z. ground arith }
  act-Fine approve id input = record { at = λ s z. z.1 }
  act-Fine pay id input = record { at = λ s z. z.1 }
  act-Fine confirm_payment id input = record { at = λ s z. z.1 }

  retry-Fine :
      (r : Report)
      → Triple
          (Read r)
          (if b then retry env b d r else throw (unavailable "AI review recovery is unavailable"))
          (λ _. Fine)
          Fine
  unfolding retry
  retry-Fine r = record { at = λ s z. ground arith }

  change_report-Fine :
      (id : String) (patch : Patch) (r : Report)
      → Triple
          (λ s. (is_researcher p.role ≡ true) × Read r s)
          (perform env (change_report p.user_id id patch (content_hash d (merge patch r))))
          (λ _. Fine)
          Fine
  change_report-Fine id patch r = record { at = λ s z. ground arith }

  get-May :
      (id : String)
      → Triple
          (May (is_researcher p.role))
          (get env b d p id)
          (λ detail s. (is_researcher p.role ≡ true) × Read detail.report s)
          Fine
  get-May id = Triple-frame (is_researcher p.role ≡ true) (get-Read id)

  serve-Fine : (r : Request) → Triple Fine (serve env b d p r) (λ _. Fine) Fine
  unfolding serve generate_ai_review submit update update_payout_wallet review reopen_duplicate
      send_back_for_review decide_disclosure
  serve-Fine (get_one id) = get-Fine id
  serve-Fine (generate_one id) =
      Triple-bind (λ _. Fine)
        (Triple-weaken (allow-May (is_researcher p.role || (is_owner p.role || is_reviewer p.role)))
          (λ a s z. z.1) (λ s z. z))
        (λ _.
          Triple-bind Read (accessible-Read id)
            (λ r. Triple-bind (λ _. Fine) (retry-Fine r) (λ _. get-Fine r.id)))
  serve-Fine (submit_one program_id input) =
      change-Fine _ _ (λ id. id) (record { at = λ s z. ground arith })
  serve-Fine (update_one id patch) =
      Triple-bind (λ _. May (is_researcher p.role)) (allow-May (is_researcher p.role))
        λ _. Triple-bind _ (get-May id) (λ detail.
          Triple-bind (λ _. Fine) (change_report-Fine id patch detail.report) (λ _. get-Fine id))
  serve-Fine (wallet_one id input) = change-Fine _ _ (λ _. id) (record { at = λ s z. ground arith })
  serve-Fine (review_one action id input) = change-Fine _ _ (λ _. id) (act-Fine action id input)
  serve-Fine (reopen_one id input) = change-Fine _ _ (λ _. id) (record { at = λ s z. ground arith })
  serve-Fine (send_back_one id input) =
      change-Fine _ _ (λ _. id) (record { at = λ s z. ground arith })
  serve-Fine (decide_one id input) = change-Fine _ _ (λ _. id) (record { at = λ s z. ground arith })

-- Whatever the answers, a route changes a report only in the name of its principal, whose role may
-- make that change; the hash that it stores with a new report is that of the input, the one that it
-- stores with an edit is that of the report read last with the edit, and a new AI review is asked for
-- with the identity and the hash of the report read last.
pub serve-IsAuthored :
    (env : Environment Answer) (has_reviews : Bool) (digest : Content → String) (p : Principal)
    (r : Request) (s : Session Answer)
    → IsAuthored digest p s.calls
    → IsAuthored digest p (serve env has_reviews digest p r s).1.calls
serve-IsAuthored env has_reviews digest p r s z =
    Triple-either (serve env has_reviews digest p r) (serve-Fine env has_reviews digest p r) s z
