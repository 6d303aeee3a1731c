-- ===== src/Ai/Worker/Calls.antt =====
-- What the calls of the worker may hold, by the calls before them.
use bug_bounty_escrow.Prelude.{
  ◌≤◌, ◌<◌, Bool, true, not, ◌||◌, Option, some, none, List, [], ◌∷◌, ◌≡◌, ◌⊎◌, length,
}
use bug_bounty_escrow.Effect.{returned, Event, did}
use bug_bounty_escrow.Ai.{
  Text, Fingerprint, Report, Candidate, Triage, Comparison, Job, Answer, claim_next,
  find_prior_candidates, persist_fingerprint, persist_ready, persist_unavailable,
  fingerprint_report, compare_duplicate,
}
use bug_bounty_escrow.Ai.Schema.{parse_report, parse_candidate}
use bug_bounty_escrow.Ai.Worker.{Options}
use bug_bounty_escrow.Ai.Worker.Candidates.{AllPrior}

-- The job that was claimed last.
abbrev pub latest_claim : List (Event Answer) → Option Job
latest_claim [] = none
latest_claim (did claim_next (returned job) ∷ _) = job
latest_claim (did _ _ ∷ calls) = latest_claim calls

-- The provider's last answer on a report.
abbrev pub latest_triage : List (Event Answer) → Option Triage
latest_triage [] = none
latest_triage (did (fingerprint_report _) (returned triage) ∷ _) = some triage
latest_triage (did _ _ ∷ calls) = latest_triage calls

-- The job and the answer of the last retrieval.
abbrev pub latest_prior : List (Event Answer) → Option (Job × List Candidate)
latest_prior [] = none
latest_prior (did (find_prior_candidates job _) (returned raws) ∷ _) = some (job, raws)
latest_prior (did _ _ ∷ calls) = latest_prior calls

-- The report is that of the claimed job, parsed, and the job may be sent to the provider.
abbrev pub IsSent : Options → Report → Option Job → Type 0
IsSent options report none = ⊥
IsSent options report (some job) =
    (parse_report job.report ≡ some report) × ((not options.demo || job.synthetic_data) ≡ true)

-- One of these candidates is parsed to this one.
abbrev pub HasParsed : (Text → Bool) → Candidate → List Candidate → Type 0
HasParsed is_uuid c [] = ⊥
HasParsed is_uuid c (raw ∷ raws) = (parse_candidate is_uuid raw ≡ some c) ⊎ HasParsed is_uuid c raws

-- Every candidate is a retrieved one, parsed, from before the job.
abbrev pub AllDrawn : (Text → Bool) → Job → List Candidate → List Candidate → Type 0
AllDrawn is_uuid job [] raws = Unit
AllDrawn is_uuid job (c ∷ cands) raws =
    ((c.submission_sequence < job.submission_sequence) × HasParsed is_uuid c raws)
    × AllDrawn is_uuid job cands raws

-- The candidates are drawn from the last retrieval, which was for the claimed job.
abbrev pub IsDrawn : Options → List Candidate → Option Job → Option (Job × List Candidate) → Type 0
IsDrawn options cands (some job) (some (found, raws)) =
    (found ≡ job) × AllDrawn options.is_uuid job cands raws
IsDrawn options cands _ _ = ⊥

-- Every kept candidate is a retrieved one from before the job.
abbrev pub IsRetrieved : Job → Comparison → Option (Job × List Candidate) → Type 0
IsRetrieved job c none = ⊥
IsRetrieved job c (some (found, raws)) = (found ≡ job) × AllPrior job c.candidates raws

abbrev pub IsFingerprint : Fingerprint → Option Triage → Type 0
IsFingerprint f none = ⊥
IsFingerprint f (some triage) = f ≡ triage.fingerprint

abbrev pub IsSafe : Options → List (Event Answer) → Type 0
IsSafe options [] = Unit
IsSafe options (did (fingerprint_report report) _ ∷ calls) =
    IsSent options report (latest_claim calls) × IsSafe options calls
IsSafe options (did (persist_fingerprint job triage) _ ∷ calls) =
    ((latest_claim calls ≡ some job) × (latest_triage calls ≡ some triage)) × IsSafe options calls
IsSafe options (did (find_prior_candidates job _) _ ∷ calls) =
    (latest_claim calls ≡ some job) × IsSafe options calls
IsSafe options (did (compare_duplicate report f cands) _ ∷ calls) =
    ((length cands ≤ options.max_candidates)
      × (IsSent options report (latest_claim calls)
          × (IsFingerprint f (latest_triage calls)
              × IsDrawn options cands (latest_claim calls) (latest_prior calls))))
    × IsSafe options calls
IsSafe options (did (persist_ready job triage c) _ ∷ calls) =
    ((latest_claim calls ≡ some job)
      × ((latest_triage calls ≡ some triage) × IsRetrieved job c (latest_prior calls)))
    × IsSafe options calls
IsSafe options (did (persist_unavailable job _) _ ∷ calls) =
    (latest_claim calls ≡ some job) × IsSafe options calls
IsSafe options (did _ _ ∷ calls) = IsSafe options calls
