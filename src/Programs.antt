-- ===== src/Programs.antt =====
-- Programs, `ProgramService` (apps/api/src/programs/program.service.ts): the calls of
-- `ProgramRepository` with their answers. What the service only passes on is a text.
pub mod Service
use bug_bounty_escrow.Prelude.{ℕ, String, Bool, Option, List}
use bug_bounty_escrow.Access.{Principal}

-- `EscrowTransaction`: its program, and the rest.
pub record Transaction : Type 0 where
  pub program_id : String
  pub rest : String

-- The paging of a query, and its filters.
pub record Query : Type 0 where
  pub page : ℕ
  pub limit : ℕ
  pub filters : String

pub data Op : Type 0 where
  list_public : Query → Op
  list_owned : String → Query → Op
  find_accessible : String → Option Principal → Op
  find_accessible_by_slug : String → Option Principal → Op
  find_owned : String → Principal → Op
  insert : String → String → Op
  change : String → String → String → Op
  record_deployment : String → String → String → Op
  add_funds : String → String → String → Op
  set_published : String → String → Op
  set_status : String → String → String → Op
  is_owner : String → String → Op
  is_assigned_reviewer : String → Principal → Op
  find_reviewers : String → Op
  add_reviewer : String → String → String → Op
  drop_reviewer : String → String → String → Op
  sign_logo_upload : String → String → Op
  now : Op
  find_transactions : String → ℕ → ℕ → Op
  find_transaction : String → Op

-- A program is its text; a page is its rows with the number of all.
abbrev pub Answer : Op → Type 0
Answer (list_public _) = List String × ℕ
Answer (list_owned _ _) = List String × ℕ
Answer (find_accessible _ _) = Option String
Answer (find_accessible_by_slug _ _) = Option String
Answer (find_owned _ _) = Option String
Answer (insert _ _) = String
Answer (is_owner _ _) = Bool
Answer (is_assigned_reviewer _ _) = Bool
Answer (find_reviewers _) = List String
Answer (sign_logo_upload _ _) = String × String
Answer now = ℕ
Answer (find_transactions _ _ _) = List Transaction × ℕ
Answer (find_transaction _) = Option Transaction
Answer _ = Unit {0}
