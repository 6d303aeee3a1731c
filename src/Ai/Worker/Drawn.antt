-- ===== src/Ai/Worker/Drawn.antt =====
-- The candidates that the provider gets are retrieved ones from before the job.
use bug_bounty_escrow.Prelude.{
  ℕ, zero, suc, Bool, some, List, [], ◌∷◌, ◌≡◌, inl, inr, arith, filter, take, ltb, Bool-cases,
}
use bug_bounty_escrow.Ai.{Text, Candidate, Job}
use bug_bounty_escrow.Ai.Schema.{array_of, parse_candidate}
use bug_bounty_escrow.Ai.Worker.{prior}
use bug_bounty_escrow.Ai.Worker.Candidates.{Parsed, array_of-Parsed}
use bug_bounty_escrow.Ai.Worker.Calls.{AllDrawn}

module _ (is_uuid : Text → Bool) (job : Job) where
  AllDrawn-more :
      (cands raws : List Candidate) (raw : Candidate)
      → AllDrawn is_uuid job cands raws
      → AllDrawn is_uuid job cands (raw ∷ raws)
  AllDrawn-more [] raws raw h = tt
  AllDrawn-more (c ∷ cands) raws raw h = ((h.0.0, inr h.0.1), AllDrawn-more cands raws raw h.1)

  abbrev is_earlier : Candidate → Bool
  is_earlier c = ltb c.submission_sequence job.submission_sequence

  filter-AllDrawn :
      (raws cands : List Candidate)
      → Parsed (parse_candidate is_uuid) raws cands
      → AllDrawn is_uuid job (filter is_earlier cands) raws
  filter-AllDrawn [] [] h = tt
  filter-AllDrawn [] (c ∷ cands) h = absurd h
  filter-AllDrawn (raw ∷ raws) [] h = absurd h
  filter-AllDrawn (raw ∷ raws) (c ∷ cands) h =
      let rest =
        AllDrawn-more (filter is_earlier cands) raws raw (filter-AllDrawn raws cands h.1) in
      elim (Bool-cases (is_earlier c)) [
        | inl earlier ↦ rw earlier ((ground arith, inl h.0), rest)
        | inr later ↦ rw later rest
      ]

  take-AllDrawn :
      (n : ℕ) (cands raws : List Candidate)
      → AllDrawn is_uuid job cands raws
      → AllDrawn is_uuid job (take n cands) raws
  take-AllDrawn zero cands raws h = tt
  take-AllDrawn (suc n) [] raws h = tt
  take-AllDrawn (suc n) (c ∷ cands) raws h = (h.0, take-AllDrawn n cands raws h.1)

  pub prior-AllDrawn :
      (max : ℕ) (raws cands : List Candidate)
      → array_of (parse_candidate is_uuid) raws ≡ some cands
      → AllDrawn is_uuid job (prior max job cands) raws
  unfolding prior
  prior-AllDrawn max raws cands e =
      take-AllDrawn max (filter is_earlier cands) raws
        (filter-AllDrawn raws cands (array_of-Parsed (parse_candidate is_uuid) raws cands e))
