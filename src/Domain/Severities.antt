-- ===== src/Domain/Severities.antt =====
-- The highest severity.
use bug_bounty_escrow.Prelude.{◌≤◌, some, List, [], ◌∷◌, ◌≡◌, refl, ◌⊎◌, inl, arith, head?}
use bug_bounty_escrow.Domain.{Severity, rank, insert, sort, highest}

abbrev pub Has : Severity → List Severity → Type 0
Has s [] = ⊥
Has s (t ∷ rest) = (s ≡ t) ⊎ Has s rest

abbrev pub AtMost : Severity → List Severity → Type 0
AtMost s [] = Unit
AtMost s (t ∷ rest) = (rank s ≤ rank t) × AtMost s rest

Has-insert : (x s : Severity) (l : List Severity) → Has x (insert s l) → (x ≡ s) ⊎ Has x l
unfolding insert
Has-insert x s [] h = h
Has-insert x s (t ∷ l) h = ground (arith, Has-insert x s l)

Has-sort : (x : Severity) (l : List Severity) → Has x (sort l) → Has x l
unfolding sort
Has-sort x [] h = h
Has-sort x (s ∷ l) h = ground (arith, Has-insert x s (sort l), Has-sort x l)

AtMost-weaken : (s t : Severity) (l : List Severity) → rank s ≤ rank t → AtMost t l → AtMost s l
AtMost-weaken s t [] le h = tt
AtMost-weaken s t (u ∷ l) le h = (omega (arith, le, h.0), AtMost-weaken s t l le h.1)

-- The head of an inserted list is as severe as the new one and as the old head.
abbrev Leads : List Severity → List Severity → Type 0
Leads [] l = l ≡ []
Leads (s ∷ _) l = AtMost s l

insert-Leads :
    (s : Severity) (sorted l : List Severity) → Leads sorted l → Leads (insert s sorted) (s ∷ l)
unfolding insert
insert-Leads s [] l h = ground arith
insert-Leads s (t ∷ rest) l h = ground (arith, AtMost-weaken s t l)

sort-Leads : (l : List Severity) → Leads (sort l) l
unfolding sort
sort-Leads [] = refl
sort-Leads (s ∷ l) = insert-Leads s (sort l) l (sort-Leads l)

headed :
    (sorted l : List Severity) (s : Severity)
    → Leads sorted l
    → ((x : Severity) → Has x sorted → Has x l)
    → head? sorted ≡ some s
    → Has s l × AtMost s l
headed [] l s leads inside e = ground arith
headed (t ∷ rest) l s leads inside e = ground (arith, inside t (inl refl))

-- The highest severity of a list is in the list, and no severity of the list ranks before it.
pub highest-IsLeast : (l : List Severity) (s : Severity) → highest l ≡ some s → Has s l × AtMost s l
unfolding highest
highest-IsLeast l s h = headed (sort l) l s (sort-Leads l) (λ x. Has-sort x l) h
