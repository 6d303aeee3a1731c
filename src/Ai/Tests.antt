-- ===== src/Ai/Tests.antt =====
-- Runs of the worker and of a request in a scripted world, and the theorems at them.
use bug_bounty_escrow.Prelude.{
  zero, suc, true, ◌≤◌, ◌+◌, ◌*◌, [], ◌∷◌, some, none, ◌≡◌, refl, sym, ap, ◌∙◌, codes_eq,
}
use bug_bounty_escrow.Effect.{returned, fresh, Environment}
use bug_bounty_escrow.Domain.{Severity}
use bug_bounty_escrow.Ai.{
  Text, Fingerprint, Report, Assessment, Job, Answer, claim_next, find_prior_candidates,
  fingerprint_report, compare_duplicate,
}
use bug_bounty_escrow.Ai.Schema.{trim, trim_start, trim_end}
use bug_bounty_escrow.Ai.Worker.{Options, run_once}
use bug_bounty_escrow.Ai.Worker.Candidates.{codes_eq_sound}
use bug_bounty_escrow.Ai.Worker.Calls.{IsSafe}
use bug_bounty_escrow.Ai.Worker.Safety.{run_once-IsSafe}
use bug_bounty_escrow.Ai.Worker.Settled.{IsSettled, run_once-IsSettled}
use bug_bounty_escrow.Ai.Http as Http
use bug_bounty_escrow.Ai.Http.Attempts.{
  fetches, paused, IsCarried, last_response, request_json-IsBounded,
}

abbrev known_id : Text
known_id = b'a' ∷ b'1' ∷ []

abbrev options : Options
options = record {
  has_provider = true;
  demo = true;
  max_candidates = 10;
  is_uuid = λ t. codes_eq t known_id;
}

known_id-trim : trim known_id ≡ known_id
unfolding trim trim_start trim_end
known_id-trim = refl

uuid-trim : (t : Text) → options.is_uuid t ≡ true → trim t ≡ t
uuid-trim t h = let e = codes_eq_sound t known_id h in ap trim e ∙ known_id-trim ∙ sym e

abbrev words : Text
words = b'x' ∷ []

abbrev report : Report
report = record {
  title = words;
  description = words;
  reproduction_steps = none;
  affected_scope = record { asset_type = words; name = words; contract_address = none };
  selected_impacts = [];
  proposed_severity = Severity.high;
}

abbrev fingerprint : Fingerprint
fingerprint = record {
  affected_components = [];
  functions = [];
  attack_vector = words;
  vulnerability_classes = [];
  prerequisites = [];
  security_impacts = [];
  normalized_summary = words;
}

abbrev job : Job
job = record {
  id = "job";
  report_id = "report";
  submission_sequence = 7;
  synthetic_data = true;
  report = report;
}

-- The provider names one candidate that was retrieved and one that was not.
abbrev world : Environment Answer
world n claim_next = returned (some job)
world n (find_prior_candidates _ _) = returned (
    record { report_id = known_id; submission_sequence = 3; report = report; fingerprint = none }
    ∷ [])
world n (fingerprint_report _) = returned (record { fingerprint = fingerprint; rest = words })
world n (compare_duplicate _ _ _) = returned (record {
  assessment = Assessment.likely;
  confidence = 0;
  matching_reasons = [];
  candidates =
      record { candidate_ref = words; assessment = Assessment.likely; confidence = 0; reasons = [] }
      ∷ record {
        candidate_ref = known_id;
        assessment = Assessment.possible;
        confidence = 0;
        reasons = [];
      }
      ∷ [];
})
world n _ = returned tt

run_once-IsSafe_example : IsSafe options (run_once world options (fresh Answer)).1.calls
run_once-IsSafe_example = run_once-IsSafe world options uuid-trim (fresh Answer) tt

run_once-IsSettled_example :
    IsSettled
      (run_once world options (fresh Answer)).0
      (run_once world options (fresh Answer)).1.calls
run_once-IsSettled_example = run_once-IsSettled world options (fresh Answer)

-- The provider is busy twice before it answers.
abbrev busy : Environment Http.Answer
busy zero Http.fetch = returned (Http.answered 503 none)
busy (suc (suc zero)) Http.fetch = returned (Http.answered 429 none)
busy n Http.fetch = returned (Http.answered 200 (some "{}"))
busy n (Http.sleep _) = returned tt

request_json-IsBounded_example :
    let end = Http.request_json busy 2 (fresh Http.Answer) in
    (fetches end.1.calls ≤ fetches [] + 2 + 1)
    × ((paused end.1.calls ≤ paused [] + 2000 * 2) × IsCarried end.0 (last_response end.1.calls))
request_json-IsBounded_example = request_json-IsBounded busy 2 (fresh Http.Answer)
