-- ===== src/Domain/Tests.antt =====
-- The theorems on statuses, at paths.
use bug_bounty_escrow.Prelude.{ℕ, inl, inr, true, some, List, [], ◌∷◌, ◌++◌, ◌≡◌, ◌↔◌, refl, any}
use bug_bounty_escrow.Domain.{
  ReportStatus, ProgramStatus, PublicStatus, Severity, same_program, can_transition_report,
  to_public, statuses_for_public, highest,
}
use bug_bounty_escrow.Domain.Reports.{Trail, stay, move, rewarded_path, paid-IsEarned}
use bug_bounty_escrow.Domain.Programs.{statuses_for_public-to_public}
use bug_bounty_escrow.Domain.Severities.{Has, AtMost, highest-IsLeast}

-- A report whose first payout failed.
abbrev visited : List ReportStatus
visited =
    ReportStatus.draft ∷ ReportStatus.submitted ∷ ReportStatus.validated
    ∷ ReportStatus.reward_approved ∷ ReportStatus.payment_pending ∷ ReportStatus.reward_approved
    ∷ ReportStatus.payment_pending ∷ ReportStatus.paid ∷ []

way : Trail ReportStatus.draft visited ReportStatus.paid
unfolding can_transition_report
way = move _ _ _ _ (inl refl) (
    move _ _ _ _ (inl refl) (
      move _ _ _ _ (inl refl) (
        move _ _ _ _ (inl refl) (
          move _ _ _ _ (inr (refl, refl))
            (move _ _ _ _ (inl refl) (move _ _ _ _ (inl refl) (stay _)))))))

paid-IsEarned_example :
    (before : List ReportStatus) × (failures : ℕ) × (visited ≡ before ++ rewarded_path failures)
paid-IsEarned_example = paid-IsEarned ReportStatus.draft ReportStatus.paid visited way refl refl

statuses_for_public-to_public_example :
    (any (same_program ProgramStatus.expired) (statuses_for_public PublicStatus.ended) ≡ true)
    ↔ (to_public ProgramStatus.expired ≡ some PublicStatus.ended)
statuses_for_public-to_public_example =
    statuses_for_public-to_public PublicStatus.ended ProgramStatus.expired

abbrev found : List Severity
found = Severity.low ∷ Severity.critical ∷ Severity.high ∷ []

highest-found : highest found ≡ some Severity.critical
unfolding highest
highest-found = refl

highest-IsLeast_example : Has Severity.critical found × AtMost Severity.critical found
highest-IsLeast_example = highest-IsLeast found Severity.critical highest-found
