-- ===== src/Reports/Hash/Tests.antt =====
-- A report with two impacts in both orders.
use bug_bounty_escrow.Prelude.{String, true, none, [], ◌∷◌, ◌≡◌}
use mathlib.Core.List.Perm
use bug_bounty_escrow.Reports.Hash.{Content, content_hash}
use bug_bounty_escrow.Reports.Hash.Order.{with_impacts, content_hash-Perm}

abbrev digest : Content → String
digest c = c.title

abbrev content : Content
content = record {
  affected_scope_id = "scope";
  title = "title";
  description = "text";
  reproduction_steps = none;
  secret_gist_url = none;
  proposed_severity = "high";
  severity_mismatch_acknowledged = true;
  program_impact_ids = (b'a' ∷ []) ∷ (b'b' ∷ []) ∷ [];
  custom_impacts = [];
}

content_hash-Perm_example :
    content_hash digest content
    ≡ content_hash digest (with_impacts content ((b'b' ∷ []) ∷ (b'a' ∷ []) ∷ []) [])
content_hash-Perm_example =
    content_hash-Perm digest content ((b'b' ∷ []) ∷ (b'a' ∷ []) ∷ []) []
      (Perm.swap (b'b' ∷ []) (b'a' ∷ []) []) Perm.nil
