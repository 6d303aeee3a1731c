-- ===== src/Pagination/Tests.antt =====
-- A list of 41 items by pages of 20.
use bug_bounty_escrow.Prelude.{◌+◌, ◌*◌, ◌≤◌, ◌<◌, true, ◌≡◌, ◌↔◌, arith}
use bug_bounty_escrow.Pagination.{pagination}
use bug_bounty_escrow.Pagination.Pages.{pagination-has_next}

pagination-has_next_example :
    (((pagination 2 20 41).has_next_page ≡ true) ↔ (2 * 20 < 41))
    × ((1 + 2 ≤ (pagination 2 20 41).total_pages) ↔ (2 * 20 < 41))
pagination-has_next_example = pagination-has_next 2 20 41 (omega arith)
