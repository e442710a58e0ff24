-- ===== src/Registry/Impact/Rules.antt =====
-- What decides a Card's fate: when it is disabled, when it is left alone, and what always blocks it.
use contextctl.Common.{
  flat_map, String, string_instance, Bool, true, false, Option, none, some, List, [], ◌∷◌, ◌++◌,
  any, find, contains, ◌==◌, ==_iff, ==_of_ne, ◌≡◌, ◌≢◌, ◌↔◌, ◌⊎◌, inl, inr, refl, arith,
  Bool-cases, any-append,
}
use contextctl.Registry.Model.{
  CardVersion, CardImpact, CardImpactReason, RetrievalScope, managed_document, ManagedDocumentScope,
  unaffected, block, disable,
}
use contextctl.Registry.Publications.{
  PublishedChange, PublishedKnowledgeUnit, PublishedDocumentScope, PublishedScope,
  published_document, added, updated, removed, unit_of_change,
}
use contextctl.Registry.Impact.{is_empty, superseded_by_removal, same_index}
use contextctl.Registry.Impact

abbrev pub is_removal : PublishedChange → Bool
is_removal (removed _ _) = true
is_removal _ = false

weigh-reasons :
    (version : CardVersion) (lost reasons : List CardImpactReason)
    → ((Impact.weigh version lost reasons).decision ≢ disable)
      × (((Impact.weigh version lost reasons).decision ≡ unaffected)
          ↔ ((Impact.weigh version lost reasons).reasons ≡ []))
unfolding Impact.weigh
weigh-reasons version (l ∷ lost) reasons = (ground arith, (ground arith, ground arith))
weigh-reasons version [] [] = (ground arith, (ground arith, ground arith))
weigh-reasons version [] (r ∷ reasons) = elim (Bool-cases (Impact.is_superseded (r ∷ reasons))) [
  | inl e ↦ rw e (ground arith, (ground arith, ground arith))
  | inr e ↦ rw e (ground arith, (ground arith, ground arith))
]

nothing_superseded : Impact.is_superseded [] ≢ true
unfolding Impact.is_superseded any
nothing_superseded h = let e : false ≡ true = h in cc

weigh-superseded :
    (version : CardVersion) (lost reasons : List CardImpactReason)
    → (is_empty lost ≡ false) ⊎ (Impact.is_superseded reasons ≡ true)
    → (Impact.weigh version lost reasons).decision ≡ block
unfolding Impact.weigh
weigh-superseded version (l ∷ lost) reasons h = refl
weigh-superseded version [] [] (inl h) = ground arith
weigh-superseded version [] (r ∷ reasons) (inl h) = ground arith
weigh-superseded version [] [] (inr h) = absurd (nothing_superseded h)
weigh-superseded version [] (r ∷ reasons) (inr h) = rw h refl

changed-reasons :
    (version : CardVersion) (change : PublishedChange) (current : Option PublishedKnowledgeUnit)
    (removal_indexes : List String)
    → let result : CardImpact = Impact.changed_unit version change current removal_indexes in
      ((result.decision ≡ disable) ↔ (is_removal change ≡ true))
      × ((result.decision ≡ unaffected) ↔ (result.reasons ≡ []))
unfolding Impact.changed_unit Impact.compare_unit
changed-reasons version (removed _ _) current removal_indexes =
    ((ground arith, ground arith), (ground arith, ground arith))
changed-reasons version (added id digest) none removal_indexes =
    ((ground arith, ground arith), (ground arith, ground arith))
changed-reasons version (updated id old digest fields) none removal_indexes =
    ((ground arith, ground arith), (ground arith, ground arith))
changed-reasons version (added id digest) (some unit) removal_indexes =
    let (n, r) = weigh-reasons version (Impact.lost_coordinates version unit) _ in
    ((λ e. absurd (n e), ground arith), r)
changed-reasons version (updated id old digest fields) (some unit) removal_indexes =
    let (n, r) = weigh-reasons version (Impact.lost_coordinates version unit) _ in
    ((λ e. absurd (n e), ground arith), r)

apart : {a b : String} → (a == b) ≡ false → a ≢ b
apart {a} {b} e same = let h : (a == b) ≡ true = (==_iff a b).1 same in cc

-- A Card is disabled exactly when the change removes the knowledge unit that the Card stands for;
-- and it is left alone exactly when the result names no reason.
pub analyze-disable :
    (version : CardVersion) (change : PublishedChange) (current : Option PublishedKnowledgeUnit)
    (removal_indexes : List String)
    → let result : CardImpact = Impact.analyze_card_impact version change current removal_indexes in
      ((result.decision ≡ disable) ↔ (
        (is_removal change ≡ true) × (unit_of_change change ≡ version.lineage.knowledge_unit_id)))
      × ((result.decision ≡ unaffected) ↔ (result.reasons ≡ []))
unfolding Impact.analyze_card_impact
analyze-disable version change current removal_indexes =
    elim (Bool-cases (unit_of_change change == version.lineage.knowledge_unit_id)) [
      | inl e ↦
          let ((a, b), c) = changed-reasons version change current removal_indexes in
          let same : unit_of_change change ≡ version.lineage.knowledge_unit_id =
            (==_iff (unit_of_change change) version.lineage.knowledge_unit_id).0 e in
          rw e ((λ d. (a d, same), λ (m, _). b m), c)
      | inr e ↦
          rw e ((ground arith, λ (_, same). absurd (apart e same)), (ground arith, ground arith))
    ]

any_in_flat_map :
    {A B : Type 0} (p : B → Bool) (f : A → List B) (before : List A) (x : A) (after : List A)
    → any p (f x) ≡ true
    → any p (flat_map f (before ++ x ∷ after)) ≡ true
unfolding any
any_in_flat_map p f [] x after h = ground (arith, any-append p (f x) (flat_map f after))
any_in_flat_map p f (y ∷ before) x after h = ground (
  arith,
  any-append p (f y) (flat_map f (before ++ x ∷ after)),
  any_in_flat_map p f before x after h,
)

superseded_append :
    (xs ys : List CardImpactReason)
    → Impact.is_superseded xs ≡ true
    → Impact.is_superseded (xs ++ ys) ≡ true
unfolding Impact.is_superseded
superseded_append xs ys h = ground (arith, any-append (λ r. r.rule == superseded_by_removal) xs ys)

drift_superseded :
    (scope : ManagedDocumentScope) (published : PublishedDocumentScope)
    → published.document_index.index_version ≢ scope.document_index.index_version
    → Impact.is_superseded (Impact.index_moved scope true (some (published_document published)))
      ≡ true
unfolding Impact.index_moved Impact.is_superseded any
drift_superseded scope published m =
    rw (==_of_ne published.document_index.index_version scope.document_index.index_version m)
      (ground arith)

drifted :
    (scope : ManagedDocumentScope) (published : List PublishedScope)
    (found : PublishedDocumentScope) (removal_indexes : List String)
    → find (same_index scope.document_index.document_index_id) published
      ≡ some (published_document found)
    → found.document_index.index_version ≢ scope.document_index.index_version
    → contains scope.document_index.document_index_id removal_indexes ≡ true
    → Impact.is_superseded (Impact.scope_drift published removal_indexes (managed_document scope))
      ≡ true
unfolding Impact.scope_drift
drifted scope published found removal_indexes f m c = rw (f, c) (drift_superseded scope found m)

-- A change that does not remove the Card's unit: a Card that pins an index version which the unit has
-- moved on from is blocked if the index is among those that knowledge was removed from.
pub analyze-superseded :
    (version : CardVersion) (change : PublishedChange) (unit : PublishedKnowledgeUnit)
    (removal_indexes : List String) (before after : List RetrievalScope)
    (scope : ManagedDocumentScope) (published : PublishedDocumentScope)
    → is_removal change ≡ false
    → unit_of_change change ≡ version.lineage.knowledge_unit_id
    → version.scopes ≡ before ++ managed_document scope ∷ after
    → find (same_index scope.document_index.document_index_id) unit.published_scopes
      ≡ some (published_document published)
    → published.document_index.index_version ≢ scope.document_index.index_version
    → contains scope.document_index.document_index_id removal_indexes ≡ true
    → (Impact.analyze_card_impact version change (some unit) removal_indexes).decision ≡ block
unfolding Impact.analyze_card_impact Impact.changed_unit Impact.compare_unit Impact.find_index_drift
    Impact.is_superseded
analyze-superseded version change unit removal_indexes before after scope published r u s f m c =
    rw ((==_iff (unit_of_change change) version.lineage.knowledge_unit_id).1 u) (go change r)
  where
    drifts : List CardImpactReason
    drifts = Impact.find_index_drift version.scopes unit.published_scopes removal_indexes

    drift :
        Impact.is_superseded
          (Impact.find_index_drift version.scopes unit.published_scopes removal_indexes)
        ≡ true
    drift = rw s (
        any_in_flat_map _ (Impact.scope_drift unit.published_scopes removal_indexes) before
          (managed_document scope) after
          (drifted scope unit.published_scopes published removal_indexes f m c))

    go :
        (change : PublishedChange)
        → is_removal change ≡ false
        → (Impact.changed_unit version change (some unit) removal_indexes).decision ≡ block
    go (removed _ _) r = ground arith
    go (added id digest) r =
        weigh-superseded version (Impact.lost_coordinates version unit) _
          (inr (superseded_append drifts _ drift))
    go (updated id old digest fields) r =
        weigh-superseded version (Impact.lost_coordinates version unit) _
          (inr (superseded_append drifts _ drift))
