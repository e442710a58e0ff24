-- ===== src/Samples/Changes.antt =====
-- Runs of version histories, of the chain of Publications, and of the assessment of a change.
use contextctl.Common.{
  inl, inr, ◌≡◌, ◌≢◌, ◌↔◌, refl, String, string_instance, true, false, not, ◌&&◌, none, some, List,
  [], ◌∷◌, find, contains, lookup, ok, All, ==_iff, find_index, filter, find_last_index,
}
use contextctl.Registry.Model.{
  CardVersion, CardVersionHistory, LifecycleEvent, card_version_promoted, CardImpact, disable,
  unaffected, block, MeaningChangeComparison,
}
use contextctl.Registry.Publications.{
  IngestionPublication, PublishedChange, PublishedKnowledgeUnit, PublishedDocumentScope,
  published_document, document_selector, document, updated, removed, PublishedChangedField,
  unit_of_change,
}
use contextctl.Registry.Versions.{
  HistoryCall, append, promote, withdraw, create_card_version_history, promote_card_version,
  precedes_current_card_version, covered_facts, compare_card_version_meaning, run,
}
use contextctl.Registry.Versions.WellFormed.{
  IsWellFormed, Extends, run-create-IsWellFormed, run-Extends, precedes-promote,
}
use contextctl.Registry.Versions.Meaning.{compare-coverage, compare-unchanged}
use contextctl.Registry.Review.{pending_review_card_version_ids}
use contextctl.Registry.Review.Pending.{pending-AwaitsDecision, AwaitsDecision}
use contextctl.Registry.Chain.{
  ChainCursor, ChainLink, locate_in_chain, is_consumable, consumed_up_to, gap,
  ConsumptionDiagnostic, predecessor_not_consumed, publication_chain_gap, locate-is_consumable,
  locate_gap-is_consumable,
}
use contextctl.Registry.Impact.{analyze_card_impact, same_index}
use contextctl.Registry.Impact.Rules.{analyze-disable, is_removal}
use contextctl.Registry.Assessment.Removals.{superseded-is_blocked}
use contextctl.Registry.Assessment.{assess_publication_impact, document_indexes_with_removals}
use contextctl.Registry.Assessment.Complete.{assess-Reports, Reports, affected, all_impacts}
use contextctl.Samples.Cards.{meaning, scope_at, version_of, history, supplies, world}

abbrev calls : List HistoryCall
calls =
    append (version_of "v1")
    ∷ promote "v1"
    ∷ append (version_of "v1")
    ∷ withdraw
    ∷ promote "v1"
    ∷ []

run-create-IsWellFormed_example : IsWellFormed (run (create_card_version_history "card") calls)
run-create-IsWellFormed_example = run-create-IsWellFormed "card" calls

run-Extends_example : Extends history (run history calls)
run-Extends_example = run-Extends history calls

abbrev rolled_back : CardVersionHistory
rolled_back = record history { current_version_id = some "v1" }

precedes : precedes_current_card_version history "v1" ≡ true
unfolding precedes_current_card_version find_index
precedes = refl

promoted : promote_card_version history "v1" ≡ ok rolled_back
unfolding promote_card_version lookup
promoted = refl

precedes-promote_example :
    (rolled_back.current_version_id ≡ some "v1")
    × ((version_of "v1").id ≢ "v2")
    × (precedes_current_card_version rolled_back "v2" ≡ false)
precedes-promote_example = precedes-promote history "v1" "v2" refl precedes promoted

abbrev no_change : MeaningChangeComparison
no_change = record {
  previous_version_id = "v1";
  changed_fields = [];
  coverage_lost = [];
  coverage_gained = [];
}

compared : compare_card_version_meaning (version_of "v1") (version_of "v2") ≡ some no_change
unfolding compare_card_version_meaning filter
compared = refl

compare-unchanged_example : meaning ≡ meaning
compare-unchanged_example =
    compare-unchanged (version_of "v1") (version_of "v2") meaning meaning no_change refl refl
      compared refl

compare-coverage_example :
    (contains "fact" no_change.coverage_lost
      ≡ (contains "fact" (covered_facts none) && not (contains "fact" (covered_facts none))))
    × (contains "fact" no_change.coverage_gained
        ≡ (contains "fact" (covered_facts none) && not (contains "fact" (covered_facts none))))
compare-coverage_example =
    compare-coverage (version_of "v1") (version_of "v2") no_change "fact" compared

abbrev decision_event : LifecycleEvent
decision_event = record {
  id = "e";
  card_id = "card";
  occurred_at = "t";
  kind = card_version_promoted "v1" none "ops" none;
}

abbrev serving_first : CardVersionHistory
serving_first = record history { current_version_id = some "v1" }

pending_run : pending_review_card_version_ids serving_first (decision_event ∷ []) ≡ "v2" ∷ []
unfolding pending_review_card_version_ids contains find_index find_last_index
pending_run = refl

abbrev cursor : ChainCursor
cursor = record { source_id = "source"; publication_id = "p1" }

abbrev link_after : String → ChainLink
link_after previous = record {
  publication_id = "p3";
  source_id = "source";
  previous_publication_id = some previous;
}

locate-is_consumable_example :
    (is_consumable (locate_in_chain (some cursor) (link_after "p1")) ≡ true)
    ↔ ((link_after "p1").previous_publication_id ≡ consumed_up_to (some cursor))
locate-is_consumable_example = locate-is_consumable (some cursor) (link_after "p1") refl

abbrev waits_for : ConsumptionDiagnostic
waits_for = record { code = publication_chain_gap; detail = predecessor_not_consumed "p3" "p2" }

gap_found : locate_in_chain (some cursor) (link_after "p2") ≡ gap "p2" "p3" waits_for
unfolding locate_in_chain
gap_found = refl

locate_gap-is_consumable_example :
    ((link_after "p2").publication_id ≡ "p3")
    × (is_consumable (
          locate_in_chain
            (some (record { source_id = "source"; publication_id = "p2" }))
            (link_after "p2"))
        ≡ true)
locate_gap-is_consumable_example =
    locate_gap-is_consumable (some cursor) (link_after "p2") "p2" "p3" waits_for gap_found

abbrev published : PublishedDocumentScope
published = record {
  scope_id = "s";
  scope_version = "2";
  document_index = record (scope_at "1").document_index { index_version = "2" };
  selector = document_selector;
}

abbrev unit : PublishedKnowledgeUnit
unit = record {
  id = "card";
  kind = "section";
  source_coordinate = document "source" "doc" "u1";
  facts = [];
  published_scopes = published_document published ∷ [];
  provenance = "";
  content_digest = "d2";
}

abbrev change : PublishedChange
change = updated "card" "d1" "d2" (PublishedChangedField.facts ∷ [])

index_found : find (same_index "index") unit.published_scopes ≡ some (published_document published)
unfolding find
index_found = refl

versions_differ : published.document_index.index_version ≢ "1"
versions_differ e = (let h : false ≡ true = (==_iff "2" "1").1 e in cc)

analyze-disable_example :
    let result : CardImpact = analyze_card_impact (version_of "v1") (removed "card" "d1") none [] in
    ((result.decision ≡ disable) ↔ (
      (is_removal (removed "card" "d1") ≡ true) × (unit_of_change (removed "card" "d1") ≡ "card")))
    × ((result.decision ≡ unaffected) ↔ (result.reasons ≡ []))
analyze-disable_example = analyze-disable (version_of "v1") (removed "card" "d1") none []

abbrev publication : IngestionPublication
publication = record {
  publication_id = "p2";
  source_id = "source";
  observation_id = "o2";
  previous_publication_id = some "p1";
  produced_at = "t1";
  knowledge_units = unit ∷ [];
  changes = change ∷ removed "other" "d0" ∷ [];
}

-- The Card of the unit that is removed serves from the same index.
abbrev other_version : CardVersion
other_version = record (version_of "v9") {
  lineage = record { publication_id = "p1"; observation_id = "o1"; knowledge_unit_id = "other" };
}

superseded-is_blocked_example :
    (analyze_card_impact
      (version_of "v1")
      change
      (some unit)
      (document_indexes_with_removals publication (other_version ∷ []))).decision
    ≡ block
superseded-is_blocked_example =
    superseded-is_blocked publication (other_version ∷ []) (version_of "v1") change unit [] []
      (scope_at "1") published refl refl refl index_found versions_differ
      (inl (inr (inl refl), inl refl))

assess-Reports_example :
    Reports "p2"
      (assess_publication_impact supplies publication (version_of "v2" ∷ []))
      (affected (
        all_impacts publication
          (document_indexes_with_removals publication (version_of "v2" ∷ []))
          (version_of "v2" ∷ [])))
      world
assess-Reports_example = assess-Reports supplies publication (version_of "v2" ∷ []) world

pending-AwaitsDecision_example :
    All
      (AwaitsDecision serving_first (decision_event ∷ []))
      (pending_review_card_version_ids serving_first (decision_event ∷ []))
pending-AwaitsDecision_example = pending-AwaitsDecision serving_first (decision_event ∷ [])
