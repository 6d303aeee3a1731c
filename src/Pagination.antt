-- ===== src/Pagination.antt =====
-- Pages of a list, `paginationMetadata` (apps/api/src/rewards/reward.service.ts, and the same function
-- in apps/api/src/programs/program.service.ts).
pub mod Pages
mod Tests
use bug_bounty_escrow.Prelude.{ℕ, ◌+◌, ◌-◌, ◌/◌, Bool, ltb, ◌==◌, if◌then◌else◌}

pub record Pagination : Type 0 where
  pub page : ℕ
  pub limit : ℕ
  pub total_items : ℕ
  pub total_pages : ℕ
  pub has_next_page : Bool
  pub has_previous_page : Bool

-- `total === 0 ? 0 : Math.ceil(total / limit)`
unfoldable pub pages_of : ℕ → ℕ → ℕ
pages_of limit total = if total == 0 then 0 else (total + (limit - 1)) / limit

-- `paginationMetadata`
unfoldable pub pagination : ℕ → ℕ → ℕ → Pagination
pagination page limit total = record {
  page = page;
  limit = limit;
  total_items = total;
  total_pages = pages_of limit total;
  has_next_page = ltb page (pages_of limit total);
  has_previous_page = ltb 1 page;
}
