-- ===== src/Ai/Worker.antt =====
-- `AiReviewWorker` (packages/ai/src/orchestrator.ts), less its metrics, which never throw and change
-- nothing.
pub mod Candidates
pub mod Calls
pub mod Drawn
pub mod Safety
pub mod Settled
use bug_bounty_escrow.Prelude.{
  ℕ, zero, suc, String, Bool, true, false, not, ◌&&◌, Option, none, some, List, [], ◌∷◌, ltb, take,
  any, filter, head?, if◌then◌else◌, codes_eq,
}
use bug_bounty_escrow.Effect.{
  Failure, provider, other, Environment, Action, pure, ◌>>=◌, ◌>>◌, catch, require, perform,
}
use bug_bounty_escrow.Ai.{
  Text, Report, Candidate, Triage, Assessment, CandidateResult, Comparison, Job, Answer, claim_next,
  find_prior_candidates, persist_fingerprint, persist_ready, persist_unavailable,
  fingerprint_report, compare_duplicate,
}
use bug_bounty_escrow.Ai.Schema.{array_of, parse_report, parse_candidate, parse_comparison}

-- Whether there is a provider, `privacyMode === 'demo'`, and `maxCandidates ?? 10`.
pub record Options : Type 0 where
  pub has_provider : Bool
  pub demo : Bool
  pub max_candidates : ℕ
  pub is_uuid : Text → Bool

pub data Status : Type 0 where
  ready unavailable : Status

-- `AiRunResult`
pub data RunResult : Type 0 where
  idle : RunResult
  processed : Status → String → RunResult

-- `safeFailureCode`
unfoldable pub safe_failure_code : Failure → String
safe_failure_code (provider code _ _) = code
safe_failure_code _ = "provider_failure"

-- The candidates that were submitted before the job, as many as the provider gets.
unfoldable pub prior : ℕ → Job → List Candidate → List Candidate
prior max job candidates =
    take max (filter (λ c. ltb c.submission_sequence job.submission_sequence) candidates)

abbrev pub allows : List Candidate → CandidateResult → Bool
allows candidates result = any (λ c. codes_eq c.report_id result.candidate_ref) candidates

unfoldable pub safe_candidates : List Candidate → List CandidateResult → List CandidateResult
safe_candidates candidates results = filter (allows candidates) results

abbrev top_assessment : Option CandidateResult → Assessment
top_assessment none = Assessment.no_match
top_assessment (some c) = c.assessment

abbrev top_confidence : Option CandidateResult → ℕ
top_confidence none = 0
top_confidence (some c) = c.confidence

abbrev top_reasons : Option CandidateResult → List Text
top_reasons none = []
top_reasons (some c) = c.reasons

-- What is parsed again before it is kept: only candidates that were retrieved.
unfoldable pub safe_comparison : List Candidate → Comparison → Comparison
safe_comparison candidates c =
    let results = safe_candidates candidates c.candidates in
    record {
      assessment = top_assessment (head? results);
      confidence = top_confidence (head? results);
      matching_reasons = top_reasons (head? results);
      candidates = results;
    }

module _ (env : Environment Answer) (options : Options) where
  unfoldable pub give_up : Job → String → Action Answer RunResult
  give_up job code = do
    perform env (persist_unavailable job code)
    pure (processed unavailable job.report_id)

  -- From the retrieved candidates on.
  unfoldable pub compare_with : Job → Report → Triage → List Candidate → Action Answer RunResult
  compare_with job report triage candidates = do
    comparison ← perform env (compare_duplicate report triage.fingerprint candidates)
    safe ← require (parse_comparison (safe_comparison candidates comparison)) (other "ZodError")
    perform env (persist_ready job triage safe)
    pure (processed ready job.report_id)

  -- The report is parsed again, and the provider is asked twice.
  unfoldable pub analyse : Job → Action Answer RunResult
  analyse job = do
    report ← require (parse_report job.report) (other "ZodError")
    triage ← perform env (fingerprint_report report)
    perform env (persist_fingerprint job triage)
    raw ← perform env (find_prior_candidates job triage.fingerprint)
    candidates ← require (array_of (parse_candidate options.is_uuid) raw) (other "ZodError")
    compare_with job report triage (prior options.max_candidates job candidates)

  -- The `try` of `runOnce`.
  unfoldable pub process : Job → Action Answer RunResult
  process job =
      if not options.has_provider
      then give_up job "disabled"
      else (if options.demo && not job.synthetic_data
          then give_up job "privacy_mode_demo_requires_synthetic_data"
          else analyse job)

  unfoldable pub settle : Job → Action Answer RunResult
  settle job = catch (process job) (λ e. give_up job (safe_failure_code e))

  -- `runOnce`
  unfoldable pub run_once : Action Answer RunResult
  run_once = do
    found ← perform env claim_next
    elim found [ none ↦ pure idle | some job ↦ settle job ]

  -- `drain`, with the jobs that are left of `maxJobs`: how many were processed.
  unfoldable pub drain : ℕ → Action Answer ℕ
  drain zero = pure 0
  drain (suc n) = ◌>>=◌ run_once (λ result. elim result [
    | idle ↦ pure 0
    | processed _ _ ↦ ◌>>=◌ (drain n) (λ rest. pure (suc rest))
  ])
