-- ===== src/Ai/Worker/Settled.antt =====
-- Every claimed job is settled.
use bug_bounty_escrow.Prelude.{
  Bool, true, false, not, ◌&&◌, Option, some, none, List, ◌∷◌, ◌≡◌, arith, String, if◌then◌else◌,
}
use bug_bounty_escrow.Effect.{
  Failure, other, Outcome, returned, raised, Event, did, Session, Environment, Action, perform,
  require, pure, ◌>>◌,
}
use bug_bounty_escrow.Effect.Triples.{Post, Triple, Triple-bind, Triple-catch}
use bug_bounty_escrow.Ai.{
  Fingerprint, Report, Candidate, Triage, Comparison, Job, Answer, claim_next,
  find_prior_candidates, persist_fingerprint, persist_ready, persist_unavailable,
  fingerprint_report, compare_duplicate,
}
use bug_bounty_escrow.Ai.Schema.{array_of, parse_report, parse_candidate, parse_comparison}
use bug_bounty_escrow.Ai.Worker.Calls.{latest_claim}
use bug_bounty_escrow.Ai.Worker.{
  Options, RunResult, idle, processed, ready, unavailable, safe_failure_code, prior,
  safe_comparison, give_up, compare_with, analyse, process, settle, run_once,
}

-- The call that was made last fits the result: nothing was claimed, or the result of the job that
-- was claimed last was stored, and the result names the report of this job.
abbrev pub IsStored : RunResult → List (Event Answer) → Type 0
IsStored idle (did claim_next (returned none) ∷ _) = Unit
IsStored (processed ready id) (did (persist_ready job _ _) (returned _) ∷ calls) =
    (latest_claim calls ≡ some job) × (id ≡ job.report_id)
IsStored (processed unavailable id) (did (persist_unavailable job _) (returned _) ∷ calls) =
    (latest_claim calls ≡ some job) × (id ≡ job.report_id)
IsStored _ _ = ⊥

-- The call that was made last is one of the two whose exceptions leave the worker: the claim, and the
-- storing of a failure of the job that was claimed last.
abbrev pub IsBroken : List (Event Answer) → Type 0
IsBroken (did claim_next (raised _) ∷ _) = Unit
IsBroken (did (persist_unavailable job _) (raised _) ∷ calls) = latest_claim calls ≡ some job
IsBroken _ = ⊥

abbrev pub IsSettled : Outcome RunResult → List (Event Answer) → Type 0
IsSettled (returned result) calls = IsStored result calls
IsSettled (raised e) calls = IsBroken calls

abbrev Any : Session Answer → Type 0
Any s = Unit

abbrev Stored : RunResult → Session Answer → Type 0
Stored result s = IsStored result s.calls

abbrev Broken : Session Answer → Type 0
Broken s = IsBroken s.calls

module _ (env : Environment Answer) (options : Options) (job : Job) where
  -- The job is the one that was claimed last.
  abbrev Claimed : Session Answer → Type 0
  Claimed s = latest_claim s.calls ≡ some job

  give_up-Stored : (code : String) → Triple Claimed (give_up env options job code) Stored Broken
  unfolding give_up
  give_up-Stored code = record { at = λ s h. ground arith }

  give_up-Claimed : (code : String) → Triple Claimed (give_up env options job code) Stored Claimed
  unfolding give_up
  give_up-Claimed code = record { at = λ s h. ground arith }

  require-Claimed :
      {A : Type 0} (found : Option A) (e : Failure)
      → Triple Claimed (require found e) (λ _. Claimed) Claimed
  require-Claimed none e = record { at = λ s h. h }
  require-Claimed (some a) e = record { at = λ s h. h }

  fingerprint-Claimed :
      (r : Report) → Triple Claimed (perform env (fingerprint_report r)) (λ _. Claimed) Claimed
  fingerprint-Claimed r = record { at = λ s h. ground arith }

  persist-Claimed :
      (triage : Triage)
      → Triple Claimed (perform env (persist_fingerprint job triage)) (λ _. Claimed) Claimed
  persist-Claimed triage = record { at = λ s h. ground arith }

  find-Claimed :
      (f : Fingerprint)
      → Triple Claimed (perform env (find_prior_candidates job f)) (λ _. Claimed) Claimed
  find-Claimed f = record { at = λ s h. ground arith }

  compare-Claimed :
      (r : Report) (f : Fingerprint) (cands : List Candidate)
      → Triple Claimed (perform env (compare_duplicate r f cands)) (λ _. Claimed) Claimed
  compare-Claimed r f cands = record { at = λ s h. ground arith }

  ready-Stored :
      (triage : Triage) (safe : Comparison)
      → Triple Claimed
          (perform env (persist_ready job triage safe) >> pure (processed ready job.report_id))
          Stored
          Claimed
  ready-Stored triage safe = record { at = λ s h. ground arith }

  compare_with-Stored :
      (report : Report) (triage : Triage) (cands : List Candidate)
      → Triple Claimed (compare_with env options job report triage cands) Stored Claimed
  unfolding compare_with
  compare_with-Stored report triage cands =
      Triple-bind (λ _. Claimed) (compare-Claimed report triage.fingerprint cands)
        λ c.
          Triple-bind (λ _. Claimed)
            (require-Claimed (parse_comparison (safe_comparison cands c)) (other "ZodError"))
            (λ safe. ready-Stored triage safe)

  analyse-Stored : Triple Claimed (analyse env options job) Stored Claimed
  unfolding analyse
  analyse-Stored =
      Triple-bind (λ _. Claimed) (require-Claimed (parse_report job.report) (other "ZodError"))
        λ report.
          Triple-bind (λ _. Claimed) (fingerprint-Claimed report)
            λ triage.
              Triple-bind (λ _. Claimed) (persist-Claimed triage)
                λ _.
                  Triple-bind (λ _. Claimed) (find-Claimed triage.fingerprint)
                    λ raws.
                      Triple-bind (λ _. Claimed)
                        (require-Claimed (array_of (parse_candidate options.is_uuid) raws)
                          (other "ZodError"))
                        (λ cands.
                          compare_with-Stored report triage
                            (prior options.max_candidates job cands))

  either :
      (b : Bool) (m k : Action Answer RunResult)
      → Triple Claimed m Stored Claimed
      → Triple Claimed k Stored Claimed
      → Triple Claimed (if b then m else k) Stored Claimed
  either true m k t u = t
  either false m k t u = u

  process-Stored : Triple Claimed (process env options job) Stored Claimed
  unfolding process
  process-Stored = either (not options.has_provider) _ _ (give_up-Claimed "disabled") (
      either (options.demo && not job.synthetic_data) _ _
        (give_up-Claimed "privacy_mode_demo_requires_synthetic_data") analyse-Stored)

  settle-Stored : Triple Claimed (settle env options job) Stored Broken
  unfolding settle
  settle-Stored = Triple-catch Claimed process-Stored (λ e. give_up-Stored (safe_failure_code e))

module _ (env : Environment Answer) (options : Options) where
  abbrev Next : Option Job → Session Answer → Type 0
  Next none s = IsStored idle s.calls
  Next (some job) s = latest_claim s.calls ≡ some job

  claim-Next : Triple Any (perform env claim_next) Next Broken
  claim-Next = record { at = λ s h. ground arith }

  run_once-Stored : Triple Any (run_once env options) Stored Broken
  unfolding run_once
  run_once-Stored = Triple-bind Next claim-Next next
    where
      next :
          (found : Option Job)
          → Triple
              (Next found)
              (elim found [ none ↦ pure idle | some job ↦ settle env options job ])
              Stored
              Broken
      next none = record { at = λ s h. h }
      next (some job) = settle-Stored env options job

settled :
    (o : Outcome RunResult) (s : Session Answer) → Post Stored Broken o s → IsSettled o s.calls
settled (returned r) s h = h
settled (raised e) s h = h

-- Whatever the queue and the provider answer, a run of the worker ends with storing what became of
-- the job that it claimed: the result `ready`, with the report of this job, after the review of this
-- job was stored; the result `unavailable`, with the report of this job, after its failure was stored;
-- no result only if nothing was claimed; and it raises an exception only if claiming a job or storing
-- the failure of the claimed job raised one.
pub run_once-IsSettled :
    (env : Environment Answer) (options : Options) (s : Session Answer)
    → IsSettled (run_once env options s).0 (run_once env options s).1.calls
run_once-IsSettled env options s =
    settled (run_once env options s).0 (run_once env options s).1
      ((run_once-Stored env options).at s tt)
