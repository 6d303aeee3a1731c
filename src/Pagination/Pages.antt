-- ===== src/Pagination/Pages.antt =====
-- When there is a next page, and which pages are not empty.
use bug_bounty_escrow.Prelude.{ℕ, suc, ◌+◌, ◌-◌, ◌*◌, ◌≤◌, ◌<◌, true, ◌≡◌, ◌↔◌, arith}
use native.Mathlib.Nat.{le-div_iff_mul-le}
use bug_bounty_escrow.Pagination.{pages_of, pagination}

-- A page is before the last one if the items up to its end are not all.
lt-pages_of :
    (page limit total : ℕ) → 1 ≤ limit → (page < pages_of limit total) ↔ (page * limit < total)
unfolding pages_of
lt-pages_of page limit total pos =
    let q = le-div_iff_mul-le {k = limit} {x = suc page} {y = total + (limit - 1)} pos in
    ground (arith, q)

-- With a positive limit there is a next page exactly if the items of this page and of the pages
-- before it are not all; and a page after the first one is within the number of pages exactly if the
-- items of the pages before it are not all.
pub pagination-has_next :
    (page limit total : ℕ)
    → 1 ≤ limit
    → (((pagination page limit total).has_next_page ≡ true) ↔ (page * limit < total))
      × ((1 + page ≤ (pagination page limit total).total_pages) ↔ (page * limit < total))
unfolding pagination
pagination-has_next page limit total pos =
    let e = lt-pages_of page limit total pos in (ground (arith, e), ground (arith, e))
