-- ===== src/Reports/Hash/Order.antt =====
-- The hash does not depend on the order of the impacts.
use bug_bounty_escrow.Prelude.{String, true, false, List, [], ◌∷◌, map, ◌≡◌, refl, ap, ◌∙◌, arith}
use mathlib.Core.Logic.{∥∥₁_elim}
use mathlib.Core.List.{Permᴰ, Perm}
use bug_bounty_escrow.Ai.{Text}
use bug_bounty_escrow.Ai.Schema.{trim}
use bug_bounty_escrow.Reports.Hash.{Content, text_leb, insert, sort, canonical, content_hash}

text_leb_total : (a b : Text) → text_leb a b ≡ false → text_leb b a ≡ true
unfolding text_leb
text_leb_total [] b h = ground arith
text_leb_total (x ∷ a) [] h = refl
text_leb_total (x ∷ a) (y ∷ b) h = ground (arith, text_leb_total a b)

text_leb_antisym : (a b : Text) → text_leb a b ≡ true → text_leb b a ≡ true → a ≡ b
unfolding text_leb
text_leb_antisym [] [] h k = refl
text_leb_antisym [] (y ∷ b) h k = ground arith
text_leb_antisym (x ∷ a) [] h k = ground arith
text_leb_antisym (x ∷ a) (y ∷ b) h k = ground (arith, text_leb_antisym a b)

text_leb_trans : (a b c : Text) → text_leb a b ≡ true → text_leb b c ≡ true → text_leb a c ≡ true
unfolding text_leb
text_leb_trans [] b c h k = refl
text_leb_trans (x ∷ a) [] c h k = ground arith
text_leb_trans (x ∷ a) (y ∷ b) [] h k = ground arith
text_leb_trans (x ∷ a) (y ∷ b) (z ∷ c) h k = ground (arith, text_leb_trans a b c)

insert_comm : (t u : Text) (us : List Text) → insert t (insert u us) ≡ insert u (insert t us)
unfolding insert
insert_comm t u [] = ground (arith, text_leb_total t u, text_leb_antisym t u)
insert_comm t u (v ∷ us) = ground (
  arith,
  insert_comm t u us,
  text_leb_total t u,
  text_leb_antisym t u,
  text_leb_total t v,
  text_leb_total u v,
  text_leb_trans t u v,
  text_leb_trans u t v,
)

sort-Perm : (xs ys : List Text) → Permᴰ xs ys → sort xs ≡ sort ys
unfolding sort
sort-Perm _ _ Permᴰ.nil = refl
sort-Perm _ _ (Permᴰ.cons {a = x} {b = y} {l₁ = xs} {l₂ = ys} e p) =
    ap (λ z. insert z (sort xs)) e ∙ ap (insert y) (sort-Perm xs ys p)
sort-Perm _ _ (Permᴰ.swap {a = x} {b = y} {a' = v} {l = zs} e f) =
    insert_comm x y (sort zs)
    ∙ ap (λ z. insert z (insert x (sort zs))) f
    ∙ ap (λ z. insert v (insert z (sort zs))) e
sort-Perm _ _ (Permᴰ.trans {l₁ = xs} {l₂ = ys} {l₃ = zs} p q) =
    sort-Perm xs ys p ∙ sort-Perm ys zs q

map-Perm : (f : Text → Text) (xs ys : List Text) → Permᴰ xs ys → Permᴰ (map f xs) (map f ys)
map-Perm f _ _ Permᴰ.nil = Permᴰ.nil
map-Perm f _ _ (Permᴰ.cons {l₁ = xs} {l₂ = ys} e p) = Permᴰ.cons (ap f e) (map-Perm f xs ys p)
map-Perm f _ _ (Permᴰ.swap e e') = Permᴰ.swap (ap f e) (ap f e')
map-Perm f _ _ (Permᴰ.trans {l₁ = xs} {l₂ = ys} {l₃ = zs} p q) =
    Permᴰ.trans (map-Perm f xs ys p) (map-Perm f ys zs q)

Text-IsSet : IsSet (List Text)
Text-IsSet = hlevel

sorted_once : (xs ys : List Text) → Perm xs ys → sort xs ≡ sort ys
sorted_once xs ys p = ∥∥₁_elim p (Text-IsSet (sort xs) (sort ys)) (sort-Perm xs ys)

sorted_images :
    (f : Text → Text) (xs ys : List Text) → Perm xs ys → sort (map f xs) ≡ sort (map f ys)
sorted_images f xs ys p =
    ∥∥₁_elim p (Text-IsSet (sort (map f xs)) (sort (map f ys)))
      (λ q. sort-Perm (map f xs) (map f ys) (map-Perm f xs ys q))

-- The content with other impacts.
abbrev pub with_impacts : Content → List Text → List Text → Content
with_impacts c ids titles = record {
  affected_scope_id = c.affected_scope_id;
  title = c.title;
  description = c.description;
  reproduction_steps = c.reproduction_steps;
  secret_gist_url = c.secret_gist_url;
  proposed_severity = c.proposed_severity;
  severity_mismatch_acknowledged = c.severity_mismatch_acknowledged;
  program_impact_ids = ids;
  custom_impacts = titles;
}

-- The hash of a report does not depend on the order in which its impacts are sent.
pub content_hash-Perm :
    (digest : Content → String) (c : Content) (ids titles : List Text)
    → Perm c.program_impact_ids ids
    → Perm c.custom_impacts titles
    → content_hash digest c ≡ content_hash digest (with_impacts c ids titles)
unfolding content_hash canonical
content_hash-Perm digest c ids titles p q =
    rw (sorted_once c.program_impact_ids ids p) (rw (sorted_images trim c.custom_impacts titles q))
