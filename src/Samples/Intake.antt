-- ===== src/Samples/Intake.antt =====
-- Publications about one document, claimed and taken in.
use Prim.Native.Char.{code}
use contextctl.Common.{
  ◌≡◌, ◌≢◌, ◌↔◌, refl, String, string_instance, false, ◌&&◌, ◌||◌, none, some, Option, List, [],
  ◌∷◌, leb, nat_eq, ◌==◌, if◌then◌else◌, ok, All, lookup, has_key, any, filter, contains, set_of,
  insert_or_ignore, upsert,
}
use contextctl.Registry.Model.{
  CardMeaning, CardMeaningOrigin, CardPolicy, CardVersion, CardValidationState, managed_document,
  deterministic, GroundingVerdict,
}
use contextctl.Registry.Publications.{
  IngestionPublication, PublishedKnowledgeUnit, scalar, document, published_document,
  document_selector, added, updated, facts,
}
use contextctl.Registry.Chain.{ChainCursor}
use contextctl.Registry.Grounding.Texts.{Unicode, decimal, is_blank, some_char, is_control}
use contextctl.Registry.Grounding.Report.{GroundingInput, ground_card_version}
use contextctl.Registry.Grounding.Judgement.{ground-IsGrounded, IsGrounded}
use contextctl.Samples.Cards.{scope_at}
use contextctl.Registry.Store.{
  Database, join_current, write_consumption, write_cards, write_card, insert_versions,
}
use contextctl.Registry.Scopes.{translate_published_scope}
use contextctl.Registry.Decisions.{code_units}
use contextctl.Registry.Effects.{World, Supplies}
use contextctl.Registry.Claim.{
  ClaimPorts, ClaimedCardVersion, claimed, claim_publication, grounding_input, claim_consumable,
}
use contextctl.Registry.Claim.Positions.{claim-IsAdmissible, IsAdmissible}
use contextctl.Registry.Intake.{deliver, intake_publication}
use contextctl.Registry.Intake.Committed.{intake-IsAtomic, IsAtomic}
use contextctl.Registry.Intake.Deliveries.{deliver-Follows, Follows, Once, IsFresh, positions_of}

-- The tables for ASCII, where every letter of the samples is small.
abbrev ascii : Unicode
ascii = record {
  is_space = λ c. nat_eq (code c) 32;
  is_letter_or_number =
      λ c. leb b'a' (code c) && leb (code c) b'z' || leb b'0' (code c) && leb (code c) b'9';
  lower = λ s. s;
}

abbrev meaning : CardMeaning
meaning = record {
  description = "refund_window is 14 days.";
  representative_questions = "how long may one return a parcel?" ∷ [];
  aliases = [];
  keywords = "returns" ∷ [];
}

abbrev origin : CardMeaningOrigin
origin = record { generator = deterministic; model_name = none; fallback_from_model = none }

abbrev unit : PublishedKnowledgeUnit
unit = record {
  id = "unit";
  kind = "document";
  source_coordinate = document "source" "doc" "section";
  facts = record { name = "section.label"; value = scalar "refund_window of 14 days" } ∷ [];
  published_scopes =
      published_document (record {
        scope_id = "s";
        scope_version = "1";
        document_index = record {
          document_index_id = "index";
          source_id = "source";
          document_id = "doc";
          index_version = "1";
        };
        selector = document_selector;
      })
      ∷ [];
  provenance = "";
  content_digest = "d";
}

abbrev first_publication : IngestionPublication
first_publication = record {
  publication_id = "p1";
  source_id = "source";
  observation_id = "o1";
  previous_publication_id = none;
  produced_at = "t0";
  knowledge_units = unit ∷ [];
  changes = added "unit" "d" ∷ [];
}

abbrev second_publication : IngestionPublication
second_publication = record first_publication {
  publication_id = "p2";
  previous_publication_id = some "p1";
  observation_id = "o2";
  changes = updated "unit" "d" "e" (facts ∷ []) ∷ [];
}

abbrev published : String → Option IngestionPublication
published id =
    if id == "p1"
    then some first_publication
    else if id == "p2"
    then some second_publication
    else none

abbrev supply : Supplies
unfolding decimal
supply = record { fresh = λ n. decimal n; time = λ n. "t1" }

abbrev ports : ClaimPorts
ports = record {
  supplies = supply;
  unicode = ascii;
  find_by_id = published;
  generate = λ coordinate observed. ok (meaning, origin);
}

abbrev policy : CardPolicy
policy = record { sensitive = false; allowed_usage = [] }

abbrev empty_db : Database
empty_db = record {
  cards = [];
  card_versions = [];
  lifecycle_events = [];
  consumer_checkpoints = [];
  consumer_source_cursors = [];
}

abbrev start : World
start = record { db = empty_db; ids_used = 0; clock_reads = 0 }

abbrev input : GroundingInput
input = grounding_input ports unit (meaning, origin)

ground-IsGrounded_example :
    ((ground_card_version ascii input).verdict ≢ GroundingVerdict.rejected) ↔ IsGrounded ascii input
ground-IsGrounded_example = ground-IsGrounded ascii input

input-is_validated : (ground_card_version ascii input).verdict ≡ GroundingVerdict.validated
unfolding ground_card_version any is_blank code_units some_char is_control translate_published_scope
    filter contains set_of
input-is_validated = refl

abbrev cursor : ChainCursor
cursor = record { source_id = "source"; publication_id = "p1" }

abbrev version : CardVersion
version = record {
  id = "0";
  card_id = "unit";
  lineage = record { publication_id = "p1"; observation_id = "o1"; knowledge_unit_id = "unit" };
  scopes = managed_document (scope_at "1") ∷ [];
  validation_state = CardValidationState.validated;
  created_at = "t1";
  meaning = some meaning;
  grounding = some (ground_card_version ascii input);
  change_from_previous = none;
}

abbrev offers : List ClaimedCardVersion
offers = record { version = version; findings = [] } ∷ []

first_claimed : (claim_publication ports "p1" start).0 ≡ ok (claimed "p1" cursor offers)
unfolding claim_publication has_key lookup claim_consumable is_blank code_units some_char is_control
    filter contains set_of supply
first_claimed = refl

claim-IsAdmissible_example :
    (cursor.publication_id ≡ "p1") × IsAdmissible ports empty_db "p1" cursor offers
claim-IsAdmissible_example = claim-IsAdmissible ports "p1" start "p1" cursor offers first_claimed

intake-IsAtomic_example :
    IsAtomic ports policy "p1" empty_db (intake_publication ports policy "p1" start)
intake-IsAtomic_example = intake-IsAtomic ports policy "p1" start

-- The second Publication comes first, and the first comes twice.
abbrev notified : List String
notified = "p2" ∷ "p1" ∷ "p1" ∷ "p2" ∷ []

delivered : (deliver ports policy notified start).0 ≡ "p1" ∷ "p2" ∷ []
unfolding deliver has_key lookup claim_consumable join_current write_consumption insert_or_ignore
    write_cards upsert write_card filter insert_versions supply
delivered = refl

deliver-Follows_example :
    let delivered = deliver ports policy notified start in
    Follows published (positions_of empty_db) delivered.0 (positions_of delivered.1.db)
    × Once delivered.0
    × All (IsFresh empty_db) delivered.0
deliver-Follows_example = deliver-Follows ports policy notified start
