-- ===== src/Funding/Service/Readiness/Covered.antt =====
-- What `ready` means.
use bug_bounty_escrow.Prelude.{
  sym, ◌∙◌, ap, ℕ, ◌≤◌, Bool, true, List, [], ◌∷◌, Option, some, none, ◌≡◌, refl, arith, all, leb,
  ◌==◌, if◌then◌else◌, ◌↔◌, ◌&&◌,
}
use bug_bounty_escrow.Effect.{other, Outcome, returned, Session, require}
use bug_bounty_escrow.Effect.Triples.{Post, Triple, Triple-bind}
use bug_bounty_escrow.Usdc.{parse, format, max_program_usdc_base_units}
use bug_bounty_escrow.Usdc.RoundTrip.{format-parse}
use bug_bounty_escrow.Funding.{Source, FeeAllocation, IntentRow, Answer}
use bug_bounty_escrow.Funding.Service.Readiness.{
  fee_of, or_zero, required_of, deficit_of, SourceReadiness, Readiness, describe, describe_all,
  is_covered, is_zero_amount, text_of, summarise, first_balance, next_balances,
}

-- Every balance, zero where there is none, reaches what is required of its source.
abbrev pub Covered : List FeeAllocation → List Source → List ℕ → Type 0
Covered allocations [] balances = Unit
Covered allocations (source ∷ sources) balances =
    (required_of allocations source ≤ first_balance balances)
    × Covered allocations sources (next_balances balances)

abbrev Pure : Session Answer → Type 0
Pure s = Unit

-- Printing and parsing does not hide whether an amount is zero.
is_zero-text :
    (d : ℕ) (text : List ℕ) → format d ≡ some text → is_zero_amount (parse text) ≡ (d == 0)
is_zero-text d text e = ap is_zero_amount (format-parse d text e) ∙ bounded-zero d
  where
    bounded-zero :
        (n : ℕ)
        → is_zero_amount (if leb n max_program_usdc_base_units then some n else none) ≡ (n == 0)
    bounded-zero n = ground arith

text_of-Printed : (d : ℕ) → Triple Pure (text_of d) (λ text _. format d ≡ some text) Pure
text_of-Printed d = found (format d) refl
  where
    found :
        (printed : Option (List ℕ))
        → printed ≡ format d
        → Triple {Answer = Answer} Pure
            (require printed (other "RangeError"))
            (λ text _. format d ≡ some text)
            Pure
    found none e = record { at = λ s h. tt }
    found (some text) e = record { at = λ s h. sym e }

-- An entry is covered exactly if its deficit is zero.
abbrev Fits : List FeeAllocation → Source → ℕ → SourceReadiness → Type 0
Fits allocations source balance entry =
    is_covered entry ≡ leb (required_of allocations source) balance

deficit-Fits :
    (required balance : ℕ) (text : List ℕ)
    → format (deficit_of required balance) ≡ some text
    → is_zero_amount (parse text) ≡ leb required balance
deficit-Fits required balance text e =
    is_zero-text (deficit_of required balance) text e ∙ no_deficit required balance
  where
    no_deficit : (r b : ℕ) → (deficit_of r b == 0) ≡ leb r b
    no_deficit r b = ground arith

weak-text : (d : ℕ) → Triple Pure (text_of d) (λ _. Pure) Pure
weak-text d = record { at = λ s h. ground arith }

describe-Fits :
    (allocations : List FeeAllocation) (source : Source) (balance : ℕ)
    → Triple Pure
        (describe allocations source balance)
        (λ entry _. Fits allocations source balance entry)
        Pure
unfolding describe
describe-Fits allocations source balance =
    Triple-bind (λ _. Pure) (weak-text source.amount)
      λ _.
        Triple-bind (λ _. Pure) (weak-text (or_zero (fee_of source.network allocations)))
          λ _.
            Triple-bind (λ _. Pure) (weak-text (required_of allocations source))
              λ _.
                Triple-bind (λ _. Pure) (weak-text balance)
                  λ _.
                    Triple-bind
                      (λ text _.
                        format (deficit_of (required_of allocations source) balance) ≡ some text)
                      (text_of-Printed (deficit_of (required_of allocations source) balance))
                      λ text. record {
                        at = λ s h. deficit-Fits (required_of allocations source) balance text h;
                      }

-- The tests of all entries together, and the statement.
abbrev covers : List FeeAllocation → List Source → List ℕ → Bool
covers allocations [] balances = true
covers allocations (source ∷ sources) balances =
    leb (required_of allocations source) (first_balance balances)
    && covers allocations sources (next_balances balances)

covers_iff :
    (allocations : List FeeAllocation) (sources : List Source) (balances : List ℕ)
    → (covers allocations sources balances ≡ true) ↔ Covered allocations sources balances
covers_iff allocations [] balances = (λ _. tt, λ _. refl)
covers_iff allocations (source ∷ sources) balances = (
  λ h. ground (arith, (covers_iff allocations sources (next_balances balances)).0),
  λ h. ground (arith, (covers_iff allocations sources (next_balances balances)).1),
)

all-covers :
    (entry : SourceReadiness) (entries : List SourceReadiness) (a b : Bool)
    → is_covered entry ≡ a
    → all is_covered entries ≡ b
    → all is_covered (entry ∷ entries) ≡ (a && b)
all-covers entry entries a b p q = rw (p, q)

describe_all-covers :
    (allocations : List FeeAllocation) (sources : List Source) (balances : List ℕ)
    → Triple Pure
        (describe_all allocations sources balances)
        (λ entries _. all is_covered entries ≡ covers allocations sources balances)
        Pure
unfolding describe_all
describe_all-covers allocations [] balances = record { at = λ s h. refl }
describe_all-covers allocations (source ∷ sources) balances =
    Triple-bind (λ entry _. Fits allocations source (first_balance balances) entry)
      (describe-Fits allocations source (first_balance balances))
      λ entry. record {
        at = λ s h.
            (Triple-bind
                (λ entries _.
                  all is_covered entries ≡ covers allocations sources (next_balances balances))
                (describe_all-covers allocations sources (next_balances balances))
                (λ entries. record { at = λ t q. all-covers entry entries _ _ h q })).at
              s tt;
      }

summarise-covers :
    (intent : IntentRow) (balances : List ℕ)
    → Triple Pure
        (summarise intent balances)
        (λ r _. r.ready ≡ covers intent.fee_allocations intent.sources balances)
        Pure
unfolding summarise
summarise-covers intent balances =
    Triple-bind
      (λ entries _. all is_covered entries ≡ covers intent.fee_allocations intent.sources balances)
      (describe_all-covers intent.fee_allocations intent.sources balances)
      (λ entries. record { at = λ s h. ground arith })

returned-ready :
    (o : Outcome Readiness) (s : Session Answer) (r : Readiness) (b : Bool)
    → Post (λ x _. x.ready ≡ b) Pure o s
    → o ≡ returned r
    → r.ready ≡ b
returned-ready o s r b h e = ground arith

-- The readiness that the service computes from the confirmed balances is ready exactly if every
-- source's balance reaches its allocation with its fee, also where the amounts are above what the
-- parser of amounts accepts.
pub summarise-Covered :
    (intent : IntentRow) (balances : List ℕ) (r : Readiness) (s : Session Answer)
    → (summarise intent balances s).0 ≡ returned r
    → (r.ready ≡ true) ↔ Covered intent.fee_allocations intent.sources balances
summarise-Covered intent balances r s e = (
  λ ready. (covers_iff intent.fee_allocations intent.sources balances).0 (sym same ∙ ready),
  λ covered. same ∙ (covers_iff intent.fee_allocations intent.sources balances).1 covered,
)
  where
    same : r.ready ≡ covers intent.fee_allocations intent.sources balances
    same =
        returned-ready (summarise intent balances s).0 (summarise intent balances s).1 r _
          ((summarise-covers intent balances).at s tt) e
