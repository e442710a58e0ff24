-- ===== src/Samples/Withdrawn.antt =====
-- A Publication that removes the knowledge unit of the Card that serves.
use contextctl.Common.{◌≡◌, refl, false, none, some, [], ◌∷◌, All, ok, lookup, filter, upsert}
use contextctl.Registry.Model.{CardImpactReason, LifecycleEvent, card_impact_assessed, disable}
use contextctl.Registry.Publications.{IngestionPublication, removed}
use contextctl.Registry.Assessment.{document_indexes_with_removals}
use contextctl.Registry.Assessment.Complete.{affected, all_impacts}
use contextctl.Registry.Store.{list_current_versions, join_current}
use contextctl.Registry.Impact.{analyze_card_impact}
use contextctl.Registry.Intake.{Draft, apply_impacts}
use contextctl.Registry.Intake.Withdrawn.{apply_impacts-IsApplied, IsApplied}
use contextctl.Samples.Cards.{meaning, versions, supplies, world}

abbrev publication : IngestionPublication
publication = record {
  publication_id = "p3";
  source_id = "source";
  observation_id = "o3";
  previous_publication_id = some "p2";
  produced_at = "t1";
  knowledge_units = [];
  changes = removed "card" "d1" ∷ [];
}

abbrev reason : CardImpactReason
reason = record {
  rule = "change.removed";
  message = "knowledge unit card no longer exists in the source";
}

abbrev event : LifecycleEvent
event = record {
  id = "id";
  card_id = "card";
  occurred_at = "t1";
  kind = card_impact_assessed "p3" disable (reason ∷ []);
}

abbrev drafted : Draft
drafted =
    record {
      card_id = "card";
      intaken = record {
        card = record {
          id = "card";
          meaning = meaning;
          policy = record { sensitive = false; allowed_usage = [] };
          versions = record { card_id = "card"; versions = versions; current_version_id = none };
        };
        events = event ∷ [];
      };
    }
    ∷ []

applied : (apply_impacts supplies publication [] world).0 ≡ ok drafted
unfolding apply_impacts lookup filter upsert join_current analyze_card_impact
applied = refl

apply_impacts-IsApplied_example :
    (result : Draft) × ((apply_impacts supplies publication [] world).0 ≡ ok result)
    × All (IsApplied world.db result) (
        affected (
          all_impacts publication
            (document_indexes_with_removals publication (list_current_versions world.db))
            (list_current_versions world.db)))
apply_impacts-IsApplied_example = apply_impacts-IsApplied supplies publication [] world
