-- ===== src/Ai.antt =====
-- The AI review of reports: the schemas of packages/ai/src/contracts.ts, the worker of
-- orchestrator.ts, and the requests of http.ts. A text is the list of its UTF-16 code units, which
-- its length counts; a number that need not be an integer is the number of its 64 bits.
pub mod Schema
pub mod Worker
pub mod Http
mod Tests
use bug_bounty_escrow.Prelude.{ℕ, String, Bool, Option, List}
use bug_bounty_escrow.Domain.{Severity}

abbrev pub Text : Type 0
Text = List ℕ

-- `reportFingerprintSchema`
pub record Fingerprint : Type 0 where
  pub affected_components : List Text
  pub functions : List Text
  pub attack_vector : Text
  pub vulnerability_classes : List Text
  pub prerequisites : List Text
  pub security_impacts : List Text
  pub normalized_summary : Text

pub record Scope : Type 0 where
  pub asset_type : Text
  pub name : Text
  pub contract_address : Option Text

-- `triageReportInputSchema`
pub record Report : Type 0 where
  pub title : Text
  pub description : Text
  pub reproduction_steps : Option Text
  pub affected_scope : Scope
  pub selected_impacts : List Text
  pub proposed_severity : Severity

-- `triageCandidateInputSchema`: a report with its identity.
pub record Candidate : Type 0 where
  pub report_id : Text
  pub submission_sequence : ℕ
  pub report : Report
  pub fingerprint : Option Fingerprint

-- `reportTriageResultSchema`; the worker reads the fingerprint and passes the rest on.
pub record Triage : Type 0 where
  pub fingerprint : Fingerprint
  pub rest : Text

pub data Assessment : Type 0 where
  no_match possible likely : Assessment

-- `duplicateCandidateResultSchema`
pub record CandidateResult : Type 0 where
  pub candidate_ref : Text
  pub assessment : Assessment
  pub confidence : ℕ
  pub reasons : List Text

-- `duplicateComparisonResultSchema`, less its version.
pub record Comparison : Type 0 where
  pub assessment : Assessment
  pub confidence : ℕ
  pub matching_reasons : List Text
  pub candidates : List CandidateResult

-- `AiReviewJob`, less the fields that the worker only passes on with it.
pub record Job : Type 0 where
  pub id : String
  pub report_id : String
  pub submission_sequence : ℕ
  pub synthetic_data : Bool
  pub report : Report

-- The calls of the queue and of the provider.
pub data Op : Type 0 where
  claim_next : Op
  find_prior_candidates : Job → Fingerprint → Op
  persist_fingerprint : Job → Triage → Op
  persist_ready : Job → Triage → Comparison → Op
  persist_unavailable : Job → String → Op
  fingerprint_report : Report → Op
  compare_duplicate : Report → Fingerprint → List Candidate → Op

abbrev pub Answer : Op → Type 0
Answer claim_next = Option Job
Answer (find_prior_candidates _ _) = List Candidate
Answer (fingerprint_report _) = Triage
Answer (compare_duplicate _ _ _) = Comparison
Answer _ = Unit {0}
