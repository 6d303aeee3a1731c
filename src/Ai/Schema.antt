-- ===== src/Ai/Schema.antt =====
-- The schemas that the worker parses with (packages/ai/src/contracts.ts). A schema returns the parsed
-- value or nothing, and `trim()` changes what it returns. Whether a
-- text is a UUID is a parameter.
use bug_bounty_escrow.Prelude.{
  ℕ, Bool, true, false, ◌&&◌, ◌||◌, Option, none, some, List, [], ◌∷◌, leb, ltb, ◌==◌, length,
  if◌then◌else◌,
}
use bug_bounty_escrow.Ai.{
  Text, Fingerprint, Scope, Report, Candidate, Assessment, CandidateResult, Comparison,
}

-- The white space and line terminators of `String.prototype.trim`.
abbrev pub is_space : ℕ → Bool
is_space c =
    (leb 9 c && leb c 13)
    || (c == 32
        || (c == 160
            || (c == 5760
                || ((leb 8192 c && leb c 8202)
                    || (c == 8232
                        || (c == 8233
                            || (c == 8239 || (c == 8287 || (c == 12288 || c == 65279)))))))))

unfoldable pub trim_start : Text → Text
trim_start [] = []
trim_start (c ∷ s) = let rest = trim_start s in if is_space c then rest else c ∷ s

abbrev is_empty {ℓ} : {A : Type ℓ} → List A → Bool
is_empty [] = true
is_empty (_ ∷ _) = false

unfoldable pub trim_end : Text → Text
trim_end [] = []
trim_end (c ∷ s) = let rest = trim_end s in if is_empty rest && is_space c then [] else c ∷ rest

unfoldable pub trim : Text → Text
trim s = trim_end (trim_start s)

-- `z.string().trim().min(1).max(max)`
unfoldable pub bounded_text : ℕ → Text → Option Text
bounded_text max s =
    if ltb 0 (length (trim s)) && leb (length (trim s)) max then some (trim s) else none

-- `z.array(schema).max(max)`, with the schema of the elements.
unfoldable pub array_of {ℓ} : {A : Type ℓ} → (A → Option A) → List A → Option (List A)
array_of schema [] = some []
array_of schema (x ∷ xs) = elim (schema x) [
  | none ↦ none
  | some y ↦ elim (array_of schema xs) [ none ↦ none | some ys ↦ some (y ∷ ys) ]
]

abbrev pub bounded_array {ℓ} : {A : Type ℓ} → ℕ → (A → Option A) → List A → Option (List A)
bounded_array max schema xs = if leb (length xs) max then array_of schema xs else none

abbrev then_with {ℓ κ} : {A : Type ℓ} {B : Type κ} → Option A → (A → Option B) → Option B
then_with none f = none
then_with (some a) f = f a

-- `schema.optional()`
abbrev optional {ℓ} : {A : Type ℓ} → (A → Option A) → Option A → Option (Option A)
optional schema none = some none
optional schema (some a) = then_with (schema a) (λ b. some (some b))

abbrev at_most : ℕ → Text → Option Text
at_most max s = if leb (length s) max then some s else none

abbrev bounded_list : List Text → Option (List Text)
bounded_list = bounded_array 32 (bounded_text 300)

unfoldable pub parse_fingerprint : Fingerprint → Option Fingerprint
parse_fingerprint f = then_with (bounded_list f.affected_components) λ components.
    then_with (bounded_list f.functions) λ functions.
      then_with (bounded_text 500 f.attack_vector) λ attack.
        then_with (bounded_list f.vulnerability_classes) λ classes.
          then_with (bounded_list f.prerequisites) λ prerequisites.
            then_with (bounded_list f.security_impacts) λ impacts.
              then_with (bounded_text 2000 f.normalized_summary) λ summary. some (record {
                affected_components = components;
                functions = functions;
                attack_vector = attack;
                vulnerability_classes = classes;
                prerequisites = prerequisites;
                security_impacts = impacts;
                normalized_summary = summary;
              })

abbrev parse_scope : Scope → Option Scope
parse_scope s = then_with (bounded_text 64 s.asset_type) λ asset_type.
    then_with (bounded_text 300 s.name) λ name.
      then_with (optional (at_most 128) s.contract_address) λ address.
        some (record { asset_type = asset_type; name = name; contract_address = address })

-- `triageReportInputSchema.parse`
unfoldable pub parse_report : Report → Option Report
parse_report r = then_with (bounded_text 300 r.title) λ title.
    then_with (bounded_text 50000 r.description) λ description.
      then_with (optional (bounded_text 50000) r.reproduction_steps) λ steps.
        then_with (parse_scope r.affected_scope) λ scope.
          then_with (bounded_array 20 (bounded_text 300) r.selected_impacts) λ impacts.
            some (record {
              title = title;
              description = description;
              reproduction_steps = steps;
              affected_scope = scope;
              selected_impacts = impacts;
              proposed_severity = r.proposed_severity;
            })

-- `triageCandidateInputSchema.parse`; `is_uuid` is `z.string().uuid()`.
unfoldable pub parse_candidate : (Text → Bool) → Candidate → Option Candidate
parse_candidate is_uuid c =
    if is_uuid c.report_id && ltb 0 c.submission_sequence
    then (then_with (parse_report c.report) λ report.
        then_with (optional parse_fingerprint c.fingerprint) λ fingerprint. some (record {
          report_id = c.report_id;
          submission_sequence = c.submission_sequence;
          report = report;
          fingerprint = fingerprint;
        }))
    else none

-- `z.number().min(0).max(1)` on the bits of a number: 0 to 1, and the negative zero.
abbrev is_fraction : ℕ → Bool
is_fraction bits = leb bits 4607182418800017408 || bits == 9223372036854775808

abbrev is_match : Assessment → Bool
is_match Assessment.no_match = false
is_match _ = true

unfoldable pub parse_result : CandidateResult → Option CandidateResult
parse_result c =
    if is_match c.assessment && is_fraction c.confidence
    then (then_with (bounded_text 200 c.candidate_ref) λ ref.
        then_with (bounded_array 8 (bounded_text 1000) c.reasons) λ reasons. some (record {
          candidate_ref = ref;
          assessment = c.assessment;
          confidence = c.confidence;
          reasons = reasons;
        }))
    else none

-- `duplicateComparisonResultSchema.parse`
unfoldable pub parse_comparison : Comparison → Option Comparison
parse_comparison c =
    if is_fraction c.confidence
    then (then_with (bounded_array 16 (bounded_text 1000) c.matching_reasons) λ reasons.
        then_with (bounded_array 20 parse_result c.candidates) λ candidates. some (record {
          assessment = c.assessment;
          confidence = c.confidence;
          matching_reasons = reasons;
          candidates = candidates;
        }))
    else none
