-- ===== src/Registry/Assessment/Complete.antt =====
-- The assessment is the rules applied to every serving version and every change, and its events say
-- what it decided.
use contextctl.Common.{
  flat_map, String, not, List, [], ◌∷◌, ◌++◌, map, filter, ◌≡◌, refl, ap, sym, ok, Bool-cases, inl,
  inr, filter-append, subst, ◌+◌,
}
use contextctl.Registry.Model.{
  CardVersion, CardImpact, LifecycleEvent, EventKind, card_impact_assessed,
}
use contextctl.Registry.Publications.{IngestionPublication, PublishedChange, unit_of_change}
use contextctl.Registry.Impact.{analyze_card_impact}
use contextctl.Registry.Effects.{World, Supplies, Action, next_id}
use contextctl.Registry.Assessment.{
  PublicationImpactAssessment, unit_by_id, document_indexes_with_removals, is_unaffected,
}
use contextctl.Registry.Assessment

abbrev pub impact_of :
    IngestionPublication → List String → CardVersion → PublishedChange → CardImpact
impact_of publication removal_indexes version change =
    analyze_card_impact version change
      (unit_by_id (unit_of_change change) publication.knowledge_units) removal_indexes

-- The impacts by the rules alone: every serving version against every change.
unfoldable pub all_impacts : IngestionPublication → List String → List CardVersion → List CardImpact
all_impacts publication removal_indexes versions =
    flat_map (λ version. map (impact_of publication removal_indexes version) publication.changes)
      versions

unfoldable pub affected : List CardImpact → List CardImpact
affected impacts = filter (λ impact. not (is_unaffected impact.decision)) impacts

abbrev pub told : LifecycleEvent → String × EventKind
told event = (event.card_id, event.kind)

abbrev pub announced : String → CardImpact → String × EventKind
announced publication_id impact =
    (impact.card_id, card_impact_assessed publication_id impact.decision impact.reasons)

-- The action returns the expected impacts, one event for each in their order, and leaves the
-- database alone.
abbrev pub Reports : String → Action PublicationImpactAssessment → List CardImpact → World → Type 0
Reports publication_id m expected w =
    (a : PublicationImpactAssessment) × ((m w).0 ≡ ok a)
    × (a.impacts ≡ expected)
    × (map told a.events ≡ map (announced publication_id) expected)
    × ((m w).1.db ≡ w.db)

one-Reports :
    (s : Supplies) (publication_id occurred_at : String) (impact : CardImpact)
    (m : Action PublicationImpactAssessment) (expected : List CardImpact)
    → ((w : World) → Reports publication_id m expected w)
    → (w : World)
    → Reports publication_id
        (Assessment.assess_one s publication_id occurred_at impact m)
        (affected (impact ∷ []) ++ expected)
        w
unfolding Assessment.assess_one affected filter
one-Reports s publication_id occurred_at impact m expected h w =
    elim (Bool-cases (is_unaffected impact.decision)) [
      | inl e ↦ rw e (h w)
      | inr e ↦
          let (a, r, i, t, d) = h ((next_id s w).1) in
          rw (e, r)
            (_, refl, ap (λ l. impact ∷ l) i, ap (λ l. announced publication_id impact ∷ l) t, d)
    ]

affected-nil :
    (publication_id : String) (m : Action PublicationImpactAssessment) (expected : List CardImpact)
    (w : World)
    → Reports publication_id m expected w
    → Reports publication_id m (affected [] ++ expected) w
unfolding affected filter
affected-nil publication_id m expected w h = h

affected-cons :
    (first : CardImpact) (rest expected : List CardImpact)
    → affected (first ∷ []) ++ (affected rest ++ expected) ≡ affected (first ∷ rest) ++ expected
unfolding affected filter
affected-cons first rest expected = elim (Bool-cases (is_unaffected first.decision)) [
  | inl e ↦ rw e refl
  | inr e ↦ rw e refl
]

changes-Reports :
    (s : Supplies) (publication : IngestionPublication) (removal_indexes : List String)
    (occurred_at : String) (version : CardVersion) (changes : List PublishedChange)
    (m : Action PublicationImpactAssessment) (expected : List CardImpact)
    → ((w : World) → Reports publication.publication_id m expected w)
    → (w : World)
    → Reports publication.publication_id
        (Assessment.assess_changes s publication removal_indexes occurred_at version changes m)
        (affected (map (impact_of publication removal_indexes version) changes) ++ expected)
        w
unfolding Assessment.assess_changes affected
changes-Reports s publication removal_indexes occurred_at version [] m expected h w =
    affected-nil publication.publication_id m expected w (h w)
changes-Reports s publication removal_indexes occurred_at version (change ∷ changes) m expected h
      w =
    let rest = map (impact_of publication removal_indexes version) changes in
    let first = impact_of publication removal_indexes version change in
    subst
      (λ x.
        Reports publication.publication_id
          (Assessment.assess_changes s publication removal_indexes occurred_at version
            (change ∷ changes) m)
          x w)
      (affected-cons first rest expected)
      (one-Reports s publication.publication_id occurred_at first
        (Assessment.assess_changes s publication removal_indexes occurred_at version changes m)
        (affected rest ++ expected)
        (changes-Reports s publication removal_indexes occurred_at version changes m expected h) w)

versions-Reports :
    (s : Supplies) (publication : IngestionPublication) (removal_indexes : List String)
    (occurred_at : String) (versions : List CardVersion) (w : World)
    → Reports publication.publication_id
        (Assessment.assess_versions s publication removal_indexes occurred_at versions)
        (affected (all_impacts publication removal_indexes versions))
        w
unfolding Assessment.assess_versions affected all_impacts filter
versions-Reports s publication removal_indexes occurred_at [] w = (_, refl, refl, refl, refl)
versions-Reports s publication removal_indexes occurred_at (version ∷ versions) w =
    subst
      (λ x.
        Reports publication.publication_id
          (Assessment.assess_versions s publication removal_indexes occurred_at
            (version ∷ versions))
          x w)
      (sym (
        filter-append (λ impact. not (is_unaffected impact.decision))
          (map (impact_of publication removal_indexes version) publication.changes)
          (all_impacts publication removal_indexes versions)))
      (changes-Reports s publication removal_indexes occurred_at version publication.changes _ _
        (versions-Reports s publication removal_indexes occurred_at versions) w)

-- The assessment of a Publication never fails and leaves the database alone. Its impacts are those of
-- the rules for every version and every change in their order, less the ones that decide nothing; and
-- it records one event for each, in the same order, which holds the Card, the decision and the reasons.
pub assess-Reports :
    (s : Supplies) (publication : IngestionPublication) (versions : List CardVersion) (w : World)
    → Reports publication.publication_id
        (Assessment.assess_publication_impact s publication versions)
        (affected
          (all_impacts publication (document_indexes_with_removals publication versions) versions))
        w
unfolding Assessment.assess_publication_impact
assess-Reports s publication versions w =
    versions-Reports s publication (document_indexes_with_removals publication versions)
      (s.time w.clock_reads) versions (record w { clock_reads = w.clock_reads + 1 })
