-- ===== src/Ai/Worker/Candidates.antt =====
-- Which candidates of a provider's answer are kept.
use bug_bounty_escrow.Prelude.{
  ℕ, zero, suc, ◌<◌, Bool, true, Option, some, List, [], ◌∷◌, ◌≡◌, refl, sym, ap, ◌∙◌, ◌⊎◌, inl,
  inr, arith, any, filter, take, ltb, codes_eq, Bool-cases,
}
use bug_bounty_escrow.Ai.{Text, Candidate, CandidateResult, Comparison, Job}
use bug_bounty_escrow.Ai.Schema.{
  trim, bounded_text, array_of, parse_candidate, parse_result, parse_comparison,
}
use bug_bounty_escrow.Ai.Worker.{prior, allows, safe_candidates, safe_comparison}

-- Among these candidates is one with this id that was submitted before the job.
abbrev pub HasPrior : Text → Job → List Candidate → Type 0
HasPrior ref job [] = ⊥
HasPrior ref job (c ∷ cs) =
    ((c.report_id ≡ ref) × (c.submission_sequence < job.submission_sequence)) ⊎ HasPrior ref job cs

abbrev pub AllPrior : Job → List CandidateResult → List Candidate → Type 0
AllPrior job [] candidates = Unit
AllPrior job (r ∷ rs) candidates =
    HasPrior r.candidate_ref job candidates × AllPrior job rs candidates

pub codes_eq_sound : (a b : Text) → codes_eq a b ≡ true → a ≡ b
codes_eq_sound [] [] h = refl
codes_eq_sound [] (y ∷ b) h = ground arith
codes_eq_sound (x ∷ a) [] h = ground arith
codes_eq_sound (x ∷ a) (y ∷ b) h = ground (arith, codes_eq_sound a b)

parse_candidate-keeps :
    (is_uuid : Text → Bool) (c d : Candidate)
    → parse_candidate is_uuid c ≡ some d
    → (d.report_id ≡ c.report_id)
      × ((d.submission_sequence ≡ c.submission_sequence) × (is_uuid c.report_id ≡ true))
unfolding parse_candidate
parse_candidate-keeps is_uuid c d e = ground arith

parse_result-trims :
    (r o : CandidateResult) → parse_result r ≡ some o → o.candidate_ref ≡ trim r.candidate_ref
unfolding parse_result bounded_text
parse_result-trims r o e = ground arith

-- A parsed list holds what its elements are parsed to.
abbrev pub Parsed : {A : Type 0} → (A → Option A) → List A → List A → Type 0
Parsed schema [] [] = Unit
Parsed schema (x ∷ xs) (y ∷ ys) = (schema x ≡ some y) × Parsed schema xs ys
Parsed schema _ _ = ⊥

pub array_of-Parsed :
    {A : Type 0} (schema : A → Option A) (xs out : List A)
    → array_of schema xs ≡ some out
    → Parsed schema xs out
unfolding array_of
array_of-Parsed schema [] [] e = tt
array_of-Parsed schema [] (y ∷ ys) e = ground arith
array_of-Parsed schema (x ∷ xs) [] e = ground arith
array_of-Parsed schema (x ∷ xs) (y ∷ ys) e = ground (arith, array_of-Parsed schema xs ys)

-- Parsing keeps which candidates there are.
HasPrior-Parsed :
    (is_uuid : Text → Bool) (job : Job) (ref : Text) (raws cands : List Candidate)
    → Parsed (parse_candidate is_uuid) raws cands
    → HasPrior ref job cands
    → HasPrior ref job raws × (is_uuid ref ≡ true)
HasPrior-Parsed is_uuid job ref [] [] e h = absurd h
HasPrior-Parsed is_uuid job ref [] (d ∷ cands) e h = absurd e
HasPrior-Parsed is_uuid job ref (c ∷ raws) [] e h = absurd h
HasPrior-Parsed is_uuid job ref (c ∷ raws) (d ∷ cands) e (inl here) =
    let k = parse_candidate-keeps is_uuid c d e.0 in
    (
      inl (sym k.0 ∙ here.0, omega (arith, here.1, k.1.0)),
      ap is_uuid (sym (sym k.0 ∙ here.0)) ∙ k.1.1,
    )
HasPrior-Parsed is_uuid job ref (c ∷ raws) (d ∷ cands) e (inr there) =
    let rest = HasPrior-Parsed is_uuid job ref raws cands e.1 there in (inr rest.0, rest.1)

any-take :
    {A : Type 0} (test : A → Bool) (n : ℕ) (xs : List A)
    → any test (take n xs) ≡ true
    → any test xs ≡ true
any-take test zero xs h = ground arith
any-take test (suc n) [] h = h
any-take test (suc n) (x ∷ xs) h = ground (arith, any-take test n xs)

HasPrior-filter :
    (job : Job) (ref : Text) (cands : List Candidate)
    → any
        (λ c. codes_eq c.report_id ref)
        (filter (λ c. ltb c.submission_sequence job.submission_sequence) cands)
      ≡ true
    → HasPrior ref job cands
HasPrior-filter job ref [] h = ground arith
HasPrior-filter job ref (c ∷ cands) h =
    ground (arith, HasPrior-filter job ref cands, codes_eq_sound c.report_id ref)

allows-HasPrior :
    (max : ℕ) (job : Job) (cands : List Candidate) (r : CandidateResult)
    → allows (prior max job cands) r ≡ true
    → HasPrior r.candidate_ref job cands
unfolding prior
allows-HasPrior max job cands r h = HasPrior-filter job r.candidate_ref cands (
    any-take (λ c. codes_eq c.report_id r.candidate_ref) max
      (filter (λ c. ltb c.submission_sequence job.submission_sequence) cands) h)

parse_comparison-Parsed :
    (c out : Comparison)
    → parse_comparison c ≡ some out
    → array_of parse_result c.candidates ≡ some out.candidates
unfolding parse_comparison
parse_comparison-Parsed c out e = ground arith

module _ (is_uuid : Text → Bool) (trimmed : (t : Text) → is_uuid t ≡ true → trim t ≡ t) where
  -- A kept candidate is a retrieved one: its reference is a UUID, which trimming does not change.
  result-HasPrior :
      (max : ℕ) (job : Job) (raws cands : List Candidate) (r o : CandidateResult)
      → Parsed (parse_candidate is_uuid) raws cands
      → allows (prior max job cands) r ≡ true
      → parse_result r ≡ some o
      → HasPrior o.candidate_ref job raws
  result-HasPrior max job raws cands r o e allowed parsed =
      let known =
        HasPrior-Parsed is_uuid job r.candidate_ref raws cands e
          (allows-HasPrior max job cands r allowed) in
      rw (parse_result-trims r o parsed ∙ trimmed r.candidate_ref known.1) known.0

  cons-AllPrior :
      (max : ℕ) (job : Job) (raws cands : List Candidate) (r : CandidateResult)
      (rs out : List CandidateResult)
      → Parsed (parse_candidate is_uuid) raws cands
      → allows (prior max job cands) r ≡ true
      → Parsed parse_result (r ∷ rs) out
      → ((ys : List CandidateResult) → Parsed parse_result rs ys → AllPrior job ys raws)
      → AllPrior job out raws
  cons-AllPrior max job raws cands r rs [] e allowed h tail = absurd h
  cons-AllPrior max job raws cands r rs (o ∷ ys) e allowed h tail =
      (result-HasPrior max job raws cands r o e allowed h.0, tail ys h.1)

  results-AllPrior :
      (max : ℕ) (job : Job) (raws cands : List Candidate) (rs out : List CandidateResult)
      → Parsed (parse_candidate is_uuid) raws cands
      → Parsed parse_result (safe_candidates (prior max job cands) rs) out
      → AllPrior job out raws
  unfolding safe_candidates
  results-AllPrior max job raws cands [] [] e h = tt
  results-AllPrior max job raws cands [] (o ∷ out) e h = absurd h
  results-AllPrior max job raws cands (r ∷ rs) out e h =
      elim (Bool-cases (allows (prior max job cands) r)) [
        | inl allowed ↦
            cons-AllPrior max job raws cands r (filter (allows (prior max job cands)) rs) out e
              allowed (rw allowed at h) (λ ys q. results-AllPrior max job raws cands rs ys e q)
        | inr refused ↦ results-AllPrior max job raws cands rs out e (rw refused at h)
      ]

  pub comparison-AllPrior :
      (max : ℕ) (job : Job) (raws cands : List Candidate) (c safe : Comparison)
      → array_of (parse_candidate is_uuid) raws ≡ some cands
      → parse_comparison (safe_comparison (prior max job cands) c) ≡ some safe
      → AllPrior job safe.candidates raws
  unfolding safe_comparison
  comparison-AllPrior max job raws cands c safe e h =
      results-AllPrior max job raws cands c.candidates safe.candidates
        (array_of-Parsed (parse_candidate is_uuid) raws cands e)
        (array_of-Parsed parse_result (safe_candidates (prior max job cands) c.candidates)
          safe.candidates
          (parse_comparison-Parsed (safe_comparison (prior max job cands) c) safe h))
