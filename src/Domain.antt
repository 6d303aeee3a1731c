-- ===== src/Domain.antt =====
-- The statuses of programs and reports and the moves between them, the public view of a program's
-- status, and the order of severities (packages/domain/src/statuses.ts and transitions.ts).
pub mod Reports
pub mod Programs
pub mod Severities
mod Tests
use bug_bounty_escrow.Prelude.{
  ℕ, Bool, true, false, Option, none, some, List, [], ◌∷◌, any, head?, leb, ◌==◌, if◌then◌else◌,
}

pub data ProgramStatus : Type 0 where
  draft awaiting_funding active paused deactivated expired closed : ProgramStatus

pub data ReportStatus : Type 0 where
  draft submitted triaged needs_information rejected duplicate validated : ReportStatus
  reward_approved payment_pending paid : ReportStatus

-- `REPORT_STATUS_TRANSITIONS`, as `getAllowedReportStatusTransitions` reads it.
abbrev pub report_transitions : ReportStatus → List ReportStatus
report_transitions ReportStatus.draft = ReportStatus.submitted ∷ []
report_transitions ReportStatus.submitted =
    ReportStatus.triaged ∷ ReportStatus.needs_information ∷ ReportStatus.rejected
    ∷ ReportStatus.duplicate ∷ ReportStatus.validated ∷ []
report_transitions ReportStatus.triaged =
    ReportStatus.needs_information ∷ ReportStatus.rejected ∷ ReportStatus.duplicate
    ∷ ReportStatus.validated ∷ []
report_transitions ReportStatus.needs_information = ReportStatus.submitted ∷ []
report_transitions ReportStatus.rejected = []
report_transitions ReportStatus.duplicate = ReportStatus.submitted ∷ []
report_transitions ReportStatus.validated =
    ReportStatus.submitted ∷ ReportStatus.reward_approved ∷ []
report_transitions ReportStatus.reward_approved = ReportStatus.payment_pending ∷ []
report_transitions ReportStatus.payment_pending = ReportStatus.paid ∷ []
report_transitions ReportStatus.paid = []

-- `PROGRAM_STATUS_TRANSITIONS`, as `getAllowedProgramStatusTransitions` reads it.
abbrev pub program_transitions : ProgramStatus → List ProgramStatus
program_transitions ProgramStatus.draft = ProgramStatus.awaiting_funding ∷ ProgramStatus.closed ∷ []
program_transitions ProgramStatus.awaiting_funding =
    ProgramStatus.active ∷ ProgramStatus.closed ∷ []
program_transitions ProgramStatus.active =
    ProgramStatus.paused ∷ ProgramStatus.expired ∷ ProgramStatus.closed ∷ []
program_transitions ProgramStatus.paused =
    ProgramStatus.active ∷ ProgramStatus.expired ∷ ProgramStatus.closed ∷ []
program_transitions ProgramStatus.deactivated = []
program_transitions ProgramStatus.expired = ProgramStatus.closed ∷ []
program_transitions ProgramStatus.closed = []

-- The text of a status is its place in the list of statuses.
abbrev report_code : ReportStatus → ℕ
report_code ReportStatus.draft = 0
report_code ReportStatus.submitted = 1
report_code ReportStatus.triaged = 2
report_code ReportStatus.needs_information = 3
report_code ReportStatus.rejected = 4
report_code ReportStatus.duplicate = 5
report_code ReportStatus.validated = 6
report_code ReportStatus.reward_approved = 7
report_code ReportStatus.payment_pending = 8
report_code ReportStatus.paid = 9

abbrev program_code : ProgramStatus → ℕ
program_code ProgramStatus.draft = 0
program_code ProgramStatus.awaiting_funding = 1
program_code ProgramStatus.active = 2
program_code ProgramStatus.paused = 3
program_code ProgramStatus.deactivated = 4
program_code ProgramStatus.expired = 5
program_code ProgramStatus.closed = 6

abbrev pub same_report : ReportStatus → ReportStatus → Bool
same_report a b = report_code a == report_code b

abbrev pub same_program : ProgramStatus → ProgramStatus → Bool
same_program a b = program_code a == program_code b

-- `canTransitionReportStatus` and `canTransitionProgramStatus`.
unfoldable pub can_transition_report : ReportStatus → ReportStatus → Bool
can_transition_report from to = any (same_report to) (report_transitions from)

unfoldable pub can_transition_program : ProgramStatus → ProgramStatus → Bool
can_transition_program from to = any (same_program to) (program_transitions from)

pub data PublicStatus : Type 0 where
  active ended : PublicStatus

-- `toPublicProgramStatus`
unfoldable pub to_public : ProgramStatus → Option PublicStatus
to_public ProgramStatus.active = some PublicStatus.active
to_public ProgramStatus.expired = some PublicStatus.ended
to_public ProgramStatus.closed = some PublicStatus.ended
to_public _ = none

-- `programStatusesForPublicStatus`
unfoldable pub statuses_for_public : PublicStatus → List ProgramStatus
statuses_for_public PublicStatus.active = ProgramStatus.active ∷ []
statuses_for_public PublicStatus.ended = ProgramStatus.expired ∷ ProgramStatus.closed ∷ []

pub data Severity : Type 0 where
  critical high medium low informational : Severity

-- `SEVERITY_RANK`
abbrev pub rank : Severity → ℕ
rank Severity.critical = 0
rank Severity.high = 1
rank Severity.medium = 2
rank Severity.low = 3
rank Severity.informational = 4

-- `[...severities].sort(compareSeverity)`: a stable sort, here by insertion.
unfoldable pub insert : Severity → List Severity → List Severity
insert s [] = s ∷ []
insert s (t ∷ rest) =
    let deeper = insert s rest in if leb (rank s) (rank t) then s ∷ t ∷ rest else t ∷ deeper

unfoldable pub sort : List Severity → List Severity
unfolding insert
sort [] = []
sort (s ∷ rest) = insert s (sort rest)

-- `highestSeverity`
unfoldable pub highest : List Severity → Option Severity
unfolding sort
highest severities = head? (sort severities)
