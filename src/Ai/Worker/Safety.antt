-- ===== src/Ai/Worker/Safety.antt =====
-- What reaches the provider, and what is kept of its answer.
use bug_bounty_escrow.Prelude.{
  ℕ, ◌≤◌, true, not, ◌||◌, Option, some, none, List, ◌≡◌, refl, arith, length, filter, ltb,
  length-take, String,
}
use bug_bounty_escrow.Effect.{Failure, other, Session, Environment, perform, require, pure, ◌>>◌}
use bug_bounty_escrow.Effect.Triples.{Triple, Triple-bind, Triple-catch, Triple-either}
use bug_bounty_escrow.Ai.{
  Text, Report, Candidate, Triage, Comparison, Job, Answer, claim_next, find_prior_candidates,
  persist_fingerprint, persist_ready, fingerprint_report, compare_duplicate,
}
use bug_bounty_escrow.Ai.Schema.{trim, array_of, parse_report, parse_candidate, parse_comparison}
use bug_bounty_escrow.Ai.Worker.{
  Options, RunResult, processed, ready, safe_failure_code, prior, safe_comparison, give_up,
  compare_with, analyse, process, settle, run_once,
}
use bug_bounty_escrow.Ai.Worker.Candidates.{comparison-AllPrior}
use bug_bounty_escrow.Ai.Worker.Calls.{
  latest_claim, latest_triage, latest_prior, IsRetrieved, IsSafe,
}
use bug_bounty_escrow.Ai.Worker.Drawn.{prior-AllDrawn}

length-prior : (max : ℕ) (job : Job) (cands : List Candidate) → length (prior max job cands) ≤ max
unfolding prior
length-prior max job cands =
    omega (
      arith,
      length-take max (filter (λ c. ltb c.submission_sequence job.submission_sequence) cands),
    )

module _ (env : Environment Answer) (options : Options)
    (trimmed : (t : Text) → options.is_uuid t ≡ true → trim t ≡ t) where
  abbrev Safe : Session Answer → Type 0
  Safe s = IsSafe options s.calls

  -- The job is claimed, and may be sent.
  abbrev Claimed : Job → Session Answer → Type 0
  Claimed job s =
      (latest_claim s.calls ≡ some job)
      × (((not options.demo || job.synthetic_data) ≡ true) × Safe s)

  -- The report of the job was parsed.
  abbrev Read : Job → Report → Session Answer → Type 0
  Read job r s = (parse_report job.report ≡ some r) × Claimed job s

  -- The provider answered on the report.
  abbrev Triaged : Job → Report → Triage → Session Answer → Type 0
  Triaged job r triage s = (latest_triage s.calls ≡ some triage) × Read job r s

  abbrev Found : Job → Report → Triage → List Candidate → Session Answer → Type 0
  Found job r triage raws s = (latest_prior s.calls ≡ some (job, raws)) × Triaged job r triage s

  abbrev Held : Job → Session Answer → Type 0
  Held job s = (latest_claim s.calls ≡ some job) × Safe s

  give_up-Safe :
      (job : Job) (code : String)
      → Triple (Held job) (give_up env options job code) (λ _. Safe) Safe
  unfolding give_up
  give_up-Safe job code = record { at = λ s h. ground arith }

  give_up-Held :
      (job : Job) (code : String)
      → Triple (Held job) (give_up env options job code) (λ _. Safe) (Held job)
  unfolding give_up
  give_up-Held job code = record { at = λ s h. ground arith }

  report-Read :
      (job : Job) (found : Option Report)
      → parse_report job.report ≡ found
      → (e : Failure) → Triple (Claimed job) (require found e) (λ r. Read job r) (Held job)
  report-Read job none eq e = record { at = λ s h. (h.0, h.1.1) }
  report-Read job (some r) eq e = record { at = λ s h. (eq, h) }

  fingerprint-Triaged :
      (job : Job) (r : Report)
      → Triple
          (Read job r)
          (perform env (fingerprint_report r))
          (λ triage. Triaged job r triage)
          (Held job)
  fingerprint-Triaged job r = record { at = λ s h. ground arith }

  persist-Triaged :
      (job : Job) (r : Report) (triage : Triage)
      → Triple
          (Triaged job r triage)
          (perform env (persist_fingerprint job triage))
          (λ _. Triaged job r triage)
          (Held job)
  persist-Triaged job r triage = record { at = λ s h. ground arith }

  find-Found :
      (job : Job) (r : Report) (triage : Triage)
      → Triple
          (Triaged job r triage)
          (perform env (find_prior_candidates job triage.fingerprint))
          (λ raws. Found job r triage raws)
          (Held job)
  find-Found job r triage = record { at = λ s h. ground arith }

  -- The candidates are those that were retrieved, parsed.
  abbrev Parsed : Job → Report → Triage → List Candidate → List Candidate → Session Answer → Type 0
  Parsed job r triage raws cands s =
      (array_of (parse_candidate options.is_uuid) raws ≡ some cands) × Found job r triage raws s

  candidates-Parsed :
      (job : Job) (r : Report) (triage : Triage) (raws : List Candidate)
      (found : Option (List Candidate))
      → array_of (parse_candidate options.is_uuid) raws ≡ found
      → (e : Failure)
      → Triple
          (Found job r triage raws)
          (require found e)
          (λ cands. Parsed job r triage raws cands)
          (Held job)
  candidates-Parsed job r triage raws none eq e = record { at = λ s h. (h.1.1.1.0, h.1.1.1.1.1) }
  candidates-Parsed job r triage raws (some cands) eq e = record { at = λ s h. (eq, h) }

  compare-Parsed :
      (job : Job) (r : Report) (triage : Triage) (raws cands : List Candidate)
      → Triple
          (Parsed job r triage raws cands)
          (perform env
            (compare_duplicate r triage.fingerprint (prior options.max_candidates job cands)))
          (λ _. Parsed job r triage raws cands)
          (Held job)
  compare-Parsed job r triage raws cands = record {
    at = λ s h. ground (
      arith,
      length-prior options.max_candidates job cands,
      prior-AllDrawn options.is_uuid job options.max_candidates raws cands h.0,
    );
  }

  -- The comparison that is kept.
  abbrev Kept : Job → Triage → Comparison → Session Answer → Type 0
  Kept job triage safe s =
      (latest_triage s.calls ≡ some triage)
      × (IsRetrieved job safe (latest_prior s.calls) × Held job s)

  comparison-Kept :
      (job : Job) (r : Report) (triage : Triage) (raws cands : List Candidate) (c : Comparison)
      (found : Option Comparison)
      → parse_comparison (safe_comparison (prior options.max_candidates job cands) c) ≡ found
      → (e : Failure)
      → Triple
          (Parsed job r triage raws cands)
          (require found e)
          (λ safe. Kept job triage safe)
          (Held job)
  comparison-Kept job r triage raws cands c none eq e = record {
    at = λ s h. (h.1.1.1.1.0, h.1.1.1.1.1.1);
  }
  comparison-Kept job r triage raws cands c (some safe) eq e = record {
    at = λ s h. (
      h.1.1.0,
      (
        rw h.1.0 (
          refl,
          comparison-AllPrior options.is_uuid trimmed options.max_candidates job raws cands c safe
              h.0 eq,
        ),
        (h.1.1.1.1.0, h.1.1.1.1.1.1),
      ),
    );
  }

  ready-Safe :
      (job : Job) (triage : Triage) (safe : Comparison)
      → Triple
          (Kept job triage safe)
          (perform env (persist_ready job triage safe) >> pure (processed ready job.report_id))
          (λ _. Safe)
          (Held job)
  ready-Safe job triage safe = record { at = λ s h. ground arith }

  compare_with-Safe :
      (job : Job) (r : Report) (triage : Triage) (raws cands : List Candidate)
      → Triple
          (Parsed job r triage raws cands)
          (compare_with env options job r triage (prior options.max_candidates job cands))
          (λ _. Safe)
          (Held job)
  unfolding compare_with
  compare_with-Safe job r triage raws cands =
      Triple-bind (λ _. Parsed job r triage raws cands) (compare-Parsed job r triage raws cands)
        λ c.
          Triple-bind (λ safe. Kept job triage safe)
            (comparison-Kept job r triage raws cands c
              (parse_comparison (safe_comparison (prior options.max_candidates job cands) c)) refl
              (other "ZodError"))
            (λ safe. ready-Safe job triage safe)

  analyse-Safe : (job : Job) → Triple (Claimed job) (analyse env options job) (λ _. Safe) (Held job)
  unfolding analyse
  analyse-Safe job =
      Triple-bind (λ r. Read job r)
        (report-Read job (parse_report job.report) refl (other "ZodError"))
        λ r.
          Triple-bind (λ triage. Triaged job r triage) (fingerprint-Triaged job r)
            λ triage.
              Triple-bind (λ _. Triaged job r triage) (persist-Triaged job r triage)
                λ _.
                  Triple-bind (λ raws. Found job r triage raws) (find-Found job r triage)
                    λ raws.
                      Triple-bind (λ cands. Parsed job r triage raws cands)
                        (candidates-Parsed job r triage raws
                          (array_of (parse_candidate options.is_uuid) raws) refl (other "ZodError"))
                        (λ cands. compare_with-Safe job r triage raws cands)

  process-Safe : (job : Job) → Triple (Held job) (process env options job) (λ _. Safe) (Held job)
  unfolding process
  process-Safe job = record {
    at = λ s h. ground (
      arith,
      (analyse-Safe job).at s,
      (give_up-Held job "disabled").at s,
      (give_up-Held job "privacy_mode_demo_requires_synthetic_data").at s,
    );
  }

  settle-Safe : (job : Job) → Triple (Held job) (settle env options job) (λ _. Safe) Safe
  unfolding settle
  settle-Safe job =
      Triple-catch (Held job) (process-Safe job) (λ e. give_up-Safe job (safe_failure_code e))

  abbrev Next : Option Job → Session Answer → Type 0
  Next none s = Safe s
  Next (some job) s = Held job s

  claim-Next : Triple Safe (perform env claim_next) (λ found. Next found) Safe
  claim-Next = record { at = λ s h. ground arith }

  run_once-Safe : Triple Safe (run_once env options) (λ _. Safe) Safe
  unfolding run_once
  run_once-Safe = Triple-bind (λ found. Next found) claim-Next next
    where
      next :
          (found : Option Job)
          → Triple
              (Next found)
              (elim found [ none ↦ pure RunResult.idle | some job ↦ settle env options job ])
              (λ _. Safe)
              Safe
      next none = record { at = λ s h. h }
      next (some job) = settle-Safe job

-- Whatever the queue and the provider answer, one run of the worker sends to the provider only the
-- report of the job that was claimed last, as the schema parses it, and only if the demo mode is off
-- or the job is synthetic. With it go the fingerprint that the provider gave last and at most the
-- given number of candidates, each of which the last retrieval gave for this job, parsed, and was
-- submitted before it. What is stored is stored for this job: its fingerprint, its failure, or its
-- review, which holds only candidates that the last retrieval gave for it and that were submitted
-- before it. A UUID is assumed to have no white space at its ends.
pub run_once-IsSafe :
    (env : Environment Answer) (options : Options)
    → ((t : Text) → options.is_uuid t ≡ true → trim t ≡ t)
    → (s : Session Answer) → IsSafe options s.calls
    → IsSafe options (run_once env options s).1.calls
run_once-IsSafe env options trimmed s h =
    Triple-either (run_once env options) (run_once-Safe env options trimmed) s h
