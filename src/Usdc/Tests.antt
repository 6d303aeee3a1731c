-- ===== src/Usdc/Tests.antt =====
-- The theorems on amounts, at an amount.
use bug_bounty_escrow.Prelude.{ℕ, List, some, none, ◌≡◌, refl, leb, if◌then◌else◌, arith, codes}
use bug_bounty_escrow.Usdc.{parse, format, max_program_usdc_base_units}
use bug_bounty_escrow.Usdc.RoundTrip.{parse-format, format-parse}

abbrev twelve : ℕ
twelve = 12340500

parse-format_example : (text : List ℕ) × (format twelve ≡ some text) × (parse text ≡ some twelve)
parse-format_example = parse-format twelve (omega arith)

twelve_text : format twelve ≡ some (codes "12.3405")
unfolding format
twelve_text = refl

format-parse_example :
    parse (codes "12.3405") ≡ (if leb twelve max_program_usdc_base_units then some twelve else none)
format-parse_example = format-parse twelve (codes "12.3405") twelve_text
