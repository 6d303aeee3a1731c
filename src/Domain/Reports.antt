-- ===== src/Domain/Reports.antt =====
-- The paths of a report.
use bug_bounty_escrow.Prelude.{
  ℕ, zero, suc, Bool, true, false, List, [], ◌∷◌, ◌++◌, ◌≡◌, refl, ap, arith, ◌⊎◌, inl, inr,
}
use bug_bounty_escrow.Domain.{
  ReportStatus, rejected, validated, reward_approved, payment_pending, paid, can_transition_report,
}

-- A move: one that `canTransitionReportStatus` allows, or the return after a payout that failed,
-- which the database makes with `failRewardSettlementOperation` and the table does not list.
abbrev pub IsMove : ReportStatus → ReportStatus → Type 0
IsMove s t = (can_transition_report s t ≡ true) ⊎ ((s ≡ payment_pending) × (t ≡ reward_approved))

-- A path of moves: its start, the statuses on it, and its end.
pub data Trail : ReportStatus → List ReportStatus → ReportStatus → Type 0 where
  stay : (s : ReportStatus) → Trail s (s ∷ []) s
  move :
      (s t u : ReportStatus) (visited : List ReportStatus)
      → IsMove s t
      → Trail t visited u
      → Trail s (s ∷ visited) u

-- The statuses before an approved reward.
abbrev pub is_unrewarded : ReportStatus → Bool
is_unrewarded reward_approved = false
is_unrewarded payment_pending = false
is_unrewarded paid = false
is_unrewarded _ = true

-- The payouts, of which as many failed.
abbrev pub payouts : ℕ → List ReportStatus
payouts zero = payment_pending ∷ paid ∷ []
payouts (suc failures) = payment_pending ∷ reward_approved ∷ payouts failures

abbrev pub rewarded_path : ℕ → List ReportStatus
rewarded_path failures = validated ∷ reward_approved ∷ payouts failures

from_paid : (s u : ReportStatus) (v : List ReportStatus) → Trail s v u → s ≡ paid → v ≡ paid ∷ []
unfolding can_transition_report
from_paid s u v (stay _) e = rw e
from_paid s u v (move _ t _ w ok p) e = ground arith

-- The moves from an approved reward and from a pending payment.
approved_move : (s t : ReportStatus) → IsMove s t → s ≡ reward_approved → t ≡ payment_pending
unfolding can_transition_report
approved_move s t ok e = ground arith

pending_move :
    (s t : ReportStatus) → IsMove s t → s ≡ payment_pending → (t ≡ paid) ⊎ (t ≡ reward_approved)
unfolding can_transition_report
pending_move s t ok e = ground arith

-- A path to the payment that starts at either of the two.
abbrev FromRewarded : ReportStatus → List ReportStatus → Type 0
FromRewarded s v =
    (failures : ℕ) × (((s ≡ payment_pending) × (v ≡ payouts failures))
      ⊎ ((s ≡ reward_approved) × (v ≡ reward_approved ∷ payouts failures)))

after_pending :
    (s t u : ReportStatus) (w : List ReportStatus)
    → Trail t w u
    → s ≡ payment_pending
    → (t ≡ paid) ⊎ (t ≡ reward_approved)
    → ((t ≡ payment_pending) ⊎ (t ≡ reward_approved) → FromRewarded t w)
    → FromRewarded s (s ∷ w)
after_pending s t u w p e (inl to) rest = (0, inl (e, rw (e, from_paid t u w p to)))
after_pending s t u w p e (inr to) rest = repeat (rest (inr to))
  where
    repeat : FromRewarded t w → FromRewarded s (s ∷ w)
    repeat (n, inl there) = absurd (ground arith)
    repeat (n, inr there) = (suc n, inl (e, rw (e, there.1)))

from_rewarded :
    (s u : ReportStatus) (v : List ReportStatus)
    → Trail s v u
    → (s ≡ payment_pending) ⊎ (s ≡ reward_approved)
    → u ≡ paid
    → FromRewarded s v
from_rewarded s u v (stay _) e f = absurd (ground arith)
from_rewarded s u v (move _ t _ w ok p) (inl e) f =
    after_pending s t u w p e (pending_move s t ok e) (λ at. from_rewarded t u w p at f)
from_rewarded s u v (move _ t _ w ok p) (inr e) f =
    again (approved_move s t ok e) (from_rewarded t u w p (inl (approved_move s t ok e)) f)
  where
    again : t ≡ payment_pending → FromRewarded t w → FromRewarded s (s ∷ w)
    again to (n, inl there) = (n, inr (e, rw (e, there.1)))
    again to (n, inr there) = absurd (ground arith)

-- One move from a status before the reward.
first_move :
    (s t : ReportStatus)
    → IsMove s t
    → is_unrewarded s ≡ true
    → ((s ≡ validated) × (t ≡ reward_approved)) ⊎ (is_unrewarded t ≡ true)
unfolding can_transition_report
first_move s t ok h = ground arith

-- A report that is not yet rewarded becomes paid, by moves of the table and returns of a pending
-- payment that failed to the approved reward, only by a path that ends with validation, the approval
-- of the reward, any number of failed payments with their returns, the pending payment and the
-- payment, in this order.
pub paid-IsEarned :
    (s u : ReportStatus) (v : List ReportStatus)
    → Trail s v u
    → is_unrewarded s ≡ true
    → u ≡ paid
    → (before : List ReportStatus) × (failures : ℕ) × (v ≡ before ++ rewarded_path failures)
paid-IsEarned s u v (stay _) h e = absurd (ground arith)
paid-IsEarned s u v (move _ t _ w ok p) h e = elim (first_move s t ok h) [
  | inl (at, to) ↦ start at to (from_rewarded t u w p (inr to) e)
  | inr still ↦
      (let rest = paid-IsEarned t u w p still e in (s ∷ rest.0, rest.1, ap (λ l. s ∷ l) rest.2))
]
  where
    start :
        s ≡ validated
        → t ≡ reward_approved
        → FromRewarded t w
        → (before : List ReportStatus) × (failures : ℕ) × (s ∷ w ≡ before ++ rewarded_path failures)
    start at to (n, inl there) = absurd (ground arith)
    start at to (n, inr there) = ([], n, rw (at, there.1))

-- A rejected or a paid report stays as it is: a path from it has no move.
pub ended-IsFinal :
    (s u : ReportStatus) (v : List ReportStatus)
    → Trail s v u
    → (s ≡ rejected) ⊎ (s ≡ paid)
    → (u ≡ s) × (v ≡ s ∷ [])
unfolding can_transition_report
ended-IsFinal s u v (stay _) e = (refl, refl)
ended-IsFinal s u v (move _ t _ w ok p) e = ground arith
