-- ===== src/Registry/Versions/Meaning.antt =====
-- What compareCardVersionMeaning of card-version.ts reports.
use contextctl.Common.{
  String, string_instance, ◌≡◌, refl, ◌∙◌, ap₂, true, not, ◌&&◌, some, List, [], ◌∷◌, contains,
  set_of, contains-filter, contains-set_of, filter, ==_iff, arith, Option-cases, inl, inr,
}
use contextctl.Registry.Model.{CardVersion, CardMeaning, MeaningChangeComparison}
use contextctl.Registry.Versions.{
  same_texts, covered_facts, compare_meanings, compare_card_version_meaning,
}

same_texts_eq : (xs ys : List String) → same_texts xs ys ≡ true → xs ≡ ys
same_texts_eq [] [] h = refl
same_texts_eq [] (y ∷ ys) h = cc
same_texts_eq (x ∷ xs) [] h = cc
same_texts_eq (x ∷ xs) (y ∷ ys) h =
    ap₂ (λ a b. a ∷ b) ((==_iff x y).0 (ground arith)) (same_texts_eq xs ys (ground arith))

-- If no field is reported as changed, the two meanings are equal.
pub compare-unchanged :
    (previous next : CardVersion) (old new : CardMeaning) (c : MeaningChangeComparison)
    → previous.meaning ≡ some old
    → next.meaning ≡ some new
    → compare_card_version_meaning previous next ≡ some c
    → c.changed_fields ≡ []
    → old ≡ new
unfolding compare_card_version_meaning filter
compare-unchanged previous next old new c e e' h none_changed = ground (
  arith,
  ==_iff old.description new.description,
  same_texts_eq old.representative_questions new.representative_questions,
  same_texts_eq old.aliases new.aliases,
  same_texts_eq old.keywords new.keywords,
)

contains-difference :
    (name : String) (kept removed : List String)
    → contains name (filter (λ n. not (contains n (set_of [] removed))) (set_of [] kept))
      ≡ (contains name kept && not (contains name removed))
unfolding contains
contains-difference name kept removed =
    contains-filter (λ n. not (contains n (set_of [] removed))) name (set_of [] kept)
    ∙ ap₂ (λ a b. a && not b) (contains-set_of name kept []) (contains-set_of name removed [])

-- A fact is reported as lost exactly if the previous version covered it and the next does not,
-- and as gained exactly if the next covers it and the previous did not.
pub compare-coverage :
    (previous next : CardVersion) (c : MeaningChangeComparison) (name : String)
    → compare_card_version_meaning previous next ≡ some c
    → (contains name c.coverage_lost ≡ (
        contains name (covered_facts previous.grounding)
        && not (contains name (covered_facts next.grounding))))
      × (contains name c.coverage_gained ≡ (
          contains name (covered_facts next.grounding)
          && not (contains name (covered_facts previous.grounding))))
unfolding compare_card_version_meaning
compare-coverage previous next c name h = elim (Option-cases previous.meaning) [
  | inl gone ↦ absurd (ground arith)
  | inr (old, e) ↦ elim (Option-cases next.meaning) [
    | inl gone ↦ absurd (ground arith)
    | inr (new, e') ↦
        let same : compare_meanings previous next old new ≡ c = ground arith in
        rw (← same) (
          contains-difference name (covered_facts previous.grounding)
              (covered_facts next.grounding),
          contains-difference name (covered_facts next.grounding)
              (covered_facts previous.grounding),
        )
  ]
]
