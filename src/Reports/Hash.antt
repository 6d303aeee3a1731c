-- ===== src/Reports/Hash.antt =====
-- What the hash of a report covers, `reportContentHash`
-- (apps/api/src/reports/report-content-hash.ts). A text in an array is the list of its code units, by
-- which `sort()` orders.
pub mod Order
mod Tests
use bug_bounty_escrow.Prelude.{
  ℕ, String, Bool, true, false, Option, List, [], ◌∷◌, map, ltb, ◌==◌, ◌||◌, ◌&&◌, if◌then◌else◌,
}
use bug_bounty_escrow.Ai.{Text}
use bug_bounty_escrow.Ai.Schema.{trim}

-- `HashableReportContent`
pub record Content : Type 0 where
  pub affected_scope_id : String
  pub title : String
  pub description : String
  pub reproduction_steps : Option String
  pub secret_gist_url : Option String
  pub proposed_severity : String
  pub severity_mismatch_acknowledged : Bool
  pub program_impact_ids : List Text
  pub custom_impacts : List Text

-- `a <= b` on texts.
unfoldable pub text_leb : Text → Text → Bool
text_leb [] b = true
text_leb (x ∷ a) [] = false
text_leb (x ∷ a) (y ∷ b) = ltb x y || (x == y && text_leb a b)

unfoldable pub insert : Text → List Text → List Text
insert t [] = t ∷ []
insert t (u ∷ us) = let deeper = insert t us in if text_leb t u then t ∷ u ∷ us else u ∷ deeper

-- `[...texts].sort()`
unfoldable pub sort : List Text → List Text
sort [] = []
sort (t ∷ ts) = insert t (sort ts)

-- The object whose JSON is hashed.
unfoldable pub canonical : Content → Content
canonical c = record {
  affected_scope_id = c.affected_scope_id;
  title = c.title;
  description = c.description;
  reproduction_steps = c.reproduction_steps;
  secret_gist_url = c.secret_gist_url;
  proposed_severity = c.proposed_severity;
  severity_mismatch_acknowledged = c.severity_mismatch_acknowledged;
  program_impact_ids = sort c.program_impact_ids;
  custom_impacts = sort (map trim c.custom_impacts);
}

-- `reportContentHash`; `digest` is the SHA-256 of the JSON of an object.
unfoldable pub content_hash : (Content → String) → Content → String
content_hash digest c = digest (canonical c)
